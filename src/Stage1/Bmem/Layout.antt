-- ===== src/Stage1/Bmem/Layout.antt =====
-- How the blocks of stage1/bmem.c lie in base memory, and which bytes of them are free.
use biefircate.Prelude.{
  ℕ, zero, suc, ◌≤◌, ◌<◌, ◌≡◌, ◌⊎◌, inl, inr, List, [], ◌∷◌, arith, length, set,
}
use biefircate.Stage1.Bmem.{Blk, blk_at, remove_blk, bmem_max_addr}

-- The blocks lie above `lo`, in order and apart, and end by the 1 MiB mark.
abbrev pub IsLaidOut : ℕ → List Blk → Type 0
IsLaidOut lo [] = lo ≤ bmem_max_addr
IsLaidOut lo (b ∷ bs) =
    (lo ≤ b.start) × (b.start ≤ b.end) × (b.end ≤ b.orig_end) × IsLaidOut b.orig_end bs

abbrev pub InBlk : ℕ → Blk → Type 0
InBlk x b = (b.start ≤ x) × (x < b.end)

-- The byte at `x` is free: some block has it.
abbrev pub IsFree : ℕ → List Blk → Type 0
IsFree x [] = ⊥
IsFree x (b ∷ bs) = InBlk x b ⊎ IsFree x bs

pub IsLaidOut-max : (lo : ℕ) (bs : List Blk) → IsLaidOut lo bs → lo ≤ bmem_max_addr
IsLaidOut-max lo [] h = h
IsLaidOut-max lo (b ∷ bs) h = omega (arith, IsLaidOut-max b.orig_end bs h.3)

pub IsFree-above : (lo x : ℕ) (bs : List Blk) → IsLaidOut lo bs → IsFree x bs → lo ≤ x
IsFree-above lo x [] h f = absurd f
IsFree-above lo x (b ∷ bs) h (inl f) = omega arith
IsFree-above lo x (b ∷ bs) h (inr f) = omega (arith, IsFree-above b.orig_end x bs h.3 f)

pub blk_at_bounds :
    (lo i : ℕ) (bs : List Blk)
    → IsLaidOut lo bs
    → i < length bs
    → (lo ≤ (blk_at bs i).start)
      × ((blk_at bs i).start ≤ (blk_at bs i).end)
      × ((blk_at bs i).end ≤ (blk_at bs i).orig_end)
      × ((blk_at bs i).orig_end ≤ bmem_max_addr)
blk_at_bounds lo i [] h p = absurd (omega arith)
blk_at_bounds lo zero (b ∷ bs) h p = omega (arith, IsLaidOut-max b.orig_end bs h.3)
blk_at_bounds lo (suc i) (b ∷ bs) h p =
    omega (arith, blk_at_bounds b.orig_end i bs h.3 (omega arith))

-- The blocks are in order of their addresses.
pub blk_at_order :
    (lo i j : ℕ) (bs : List Blk)
    → IsLaidOut lo bs
    → i < j
    → j < length bs
    → (blk_at bs i).orig_end ≤ (blk_at bs j).start
blk_at_order lo i j [] h p q = absurd (omega arith)
blk_at_order lo zero zero (b ∷ bs) h p q = absurd (omega arith)
blk_at_order lo zero (suc j) (b ∷ bs) h p q = (blk_at_bounds b.orig_end j bs h.3 (omega arith)).0
blk_at_order lo (suc i) zero (b ∷ bs) h p q = absurd (omega arith)
blk_at_order lo (suc i) (suc j) (b ∷ bs) h p q =
    blk_at_order b.orig_end i j bs h.3 (omega arith) (omega arith)

pub blk_at-IsFree : (i x : ℕ) (bs : List Blk) → i < length bs → InBlk x (blk_at bs i) → IsFree x bs
blk_at-IsFree i x [] p f = absurd (omega arith)
blk_at-IsFree zero x (b ∷ bs) p f = inl f
blk_at-IsFree (suc i) x (b ∷ bs) p f = inr (blk_at-IsFree i x bs (omega arith) f)

-- A block is replaced by a part of itself.
pub record IsPart (b' b : Blk) : Type 0 where
  pub start_in : b.start ≤ b'.start
  pub ordered : b'.start ≤ b'.end
  pub end_in : b'.end ≤ b.end
  pub same_orig : b'.orig_end ≡ b.orig_end

pub set-IsLaidOut :
    (lo i : ℕ) (bs : List Blk) (b' : Blk)
    → IsLaidOut lo bs
    → IsPart b' (blk_at bs i)
    → IsLaidOut lo (set bs i b')
set-IsLaidOut lo i [] b' h p = h
set-IsLaidOut lo zero (b ∷ bs) b' h p = (omega arith, omega arith, omega arith, rw p.same_orig h.3)
set-IsLaidOut lo (suc i) (b ∷ bs) b' h p = (h.0, h.1, h.2, set-IsLaidOut b.orig_end i bs b' h.3 p)

-- What is free afterwards was free, and of the block's bytes only those of the part still are.
pub set-IsFree :
    (lo i x : ℕ) (bs : List Blk) (b' : Blk)
    → IsLaidOut lo bs
    → i < length bs
    → IsPart b' (blk_at bs i)
    → IsFree x (set bs i b')
    → IsFree x bs × (InBlk x (blk_at bs i) → InBlk x b')
set-IsFree lo i x [] b' h l p f = absurd f
set-IsFree lo zero x (b ∷ bs) b' h l p (inl f) = (inl (omega arith), λ g. f)
set-IsFree lo zero x (b ∷ bs) b' h l p (inr f) =
    (inr f, λ g. absurd (omega (arith, IsFree-above b.orig_end x bs h.3 f)))
set-IsFree lo (suc i) x (b ∷ bs) b' h l p (inl f) =
    (inl f, λ g. absurd (omega (arith, blk_at_bounds b.orig_end i bs h.3 (omega arith))))
set-IsFree lo (suc i) x (b ∷ bs) b' h l p (inr f) =
    let rest = set-IsFree b.orig_end i x bs b' h.3 (omega arith) p f in (inr rest.0, rest.1)

IsLaidOut-weaken : (lo lo' : ℕ) (bs : List Blk) → lo ≤ lo' → IsLaidOut lo' bs → IsLaidOut lo bs
IsLaidOut-weaken lo lo' [] p h = omega arith
IsLaidOut-weaken lo lo' (b ∷ bs) p h = (omega arith, h.1, h.2, h.3)

pub remove_blk-IsLaidOut :
    (lo i : ℕ) (bs : List Blk) → IsLaidOut lo bs → IsLaidOut lo (remove_blk bs i)
unfolding remove_blk
remove_blk-IsLaidOut lo i [] h = h
remove_blk-IsLaidOut lo zero (b ∷ bs) h = IsLaidOut-weaken lo b.orig_end bs (omega arith) h.3
remove_blk-IsLaidOut lo (suc i) (b ∷ bs) h =
    (h.0, h.1, h.2, remove_blk-IsLaidOut b.orig_end i bs h.3)

pub remove_blk-IsFree :
    (lo i x : ℕ) (bs : List Blk)
    → IsLaidOut lo bs
    → i < length bs
    → IsFree x (remove_blk bs i)
    → IsFree x bs × ¬ (InBlk x (blk_at bs i))
unfolding remove_blk
remove_blk-IsFree lo i x [] h l f = absurd f
remove_blk-IsFree lo zero x (b ∷ bs) h l f =
    (inr f, λ g. omega (arith, IsFree-above b.orig_end x bs h.3 f))
remove_blk-IsFree lo (suc i) x (b ∷ bs) h l (inl f) =
    (inl f, λ g. omega (arith, blk_at_bounds b.orig_end i bs h.3 (omega arith)))
remove_blk-IsFree lo (suc i) x (b ∷ bs) h l (inr f) =
    let rest = remove_blk-IsFree b.orig_end i x bs h.3 (omega arith) f in (inr rest.0, rest.1)
