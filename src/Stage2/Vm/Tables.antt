-- ===== src/Stage2/Vm/Tables.antt =====
-- What the page tables of stage2/mem.c say of each page, and what keeps the tables apart.
use biefircate.Prelude.{
  ℕ, ◌+◌, ◌*◌, ◌/◌, ◌%◌, ◌<◌, ◌≡◌, ◌≢◌, inl, inr, refl, Bool, true, false, not, ◌&&◌, some, arith,
  ◌==◌, ◌!=◌, if◌then◌else◌, Bool-cases,
}
use biefircate.Prelude.Words.{u64}
use biefircate.Bparams.{e820_reserved}
use biefircate.Stage2.Mem.Layout.{type_of}
use biefircate.Stage2.Mem.Alloc.{IsValid}
use biefircate.Stage2.Mem.Grows.{Grows}
use biefircate.Stage2.Vm.{State, page_size, is_large, pt_of, pd_of, set_entry, small_of}

-- The page directory entry for the `n`-th 2 MiB of the virtual addresses.
abbrev pub pde_at : State → ℕ → ℕ
pde_at s n = s.table (pd_of s (n / 512)) (n % 512)

-- The entry points to a table of small pages.
abbrev pub has_pt : State → ℕ → Bool
has_pt s n = (pde_at s n != 0) && not (is_large (pde_at s n))

-- How the tables map the `v`-th page, as an entry for this page: 0 if they do not map it. A large
-- page maps its small pages one behind the other.
unfoldable pub leaf : State → ℕ → ℕ
leaf s v =
    let pde = pde_at s (v / 512) in
    if has_pt s (v / 512)
    then s.table (pt_of pde) (v % 512)
    else if pde == 0
    then 0
    else u64 (small_of pde + v % 512 * page_size)

-- The page directories and the unused virtual addresses stay, and the memory map only grows.
abbrev pub IsKept : State → State → Type 0
IsKept s s' =
    ((i : ℕ) → pd_of s' i ≡ pd_of s i)
    × (s'.unused_va_ranges ≡ s.unused_va_ranges)
    × Grows s.mem s'.mem

-- A page that the memory map has as reserved, so that it is never allocated again.
abbrev pub IsTaken : State → ℕ → Type 0
IsTaken s p = type_of p s.mem.mem_ranges ≡ some e820_reserved

-- The tables are different pages, all of them taken.
pub record IsTables (s : State) : Type 0 where
  pub valid : IsValid s.mem
  pub pd_taken : (i : ℕ) → i < 4 → IsTaken s (pd_of s i)
  pub pd_ne : (i j : ℕ) → i < 4 → j < 4 → i ≢ j → pd_of s i ≢ pd_of s j
  pub pt_taken : (n : ℕ) → n < 2048 → has_pt s n ≡ true → IsTaken s (pt_of (pde_at s n))
  pub pt_pd : (n i : ℕ) → n < 2048 → i < 4 → has_pt s n ≡ true → pt_of (pde_at s n) ≢ pd_of s i
  pub pt_ne :
      (m n : ℕ)
      → m < 2048
      → n < 2048
      → m ≢ n
      → has_pt s m ≡ true
      → has_pt s n ≡ true
      → pt_of (pde_at s m) ≢ pt_of (pde_at s n)

-- The page directories stay where they are.
pub pd_of-set_entry : (s : State) (b k v i : ℕ) → pd_of (set_entry s b k v) i ≡ pd_of s i
unfolding pd_of
pd_of-set_entry s b k v i = refl

-- Writing a page directory entry changes this one and no other.
pub pde_at-set :
    (s : State) (n m v : ℕ)
    → IsTables s
    → n < 2048
    → m < 2048
    → pde_at (set_entry s (pd_of s (n / 512)) (n % 512) v) m ≡ (if m == n then v else pde_at s m)
pde_at-set s n m v t nl ml =
    rw (pd_of-set_entry s (pd_of s (n / 512)) (n % 512) v (m / 512)) (elim (Bool-cases (m == n)) [
      | inl e ↦
          let same : m ≡ n = ground arith in
          let here : ((pd_of s (m / 512) == pd_of s (n / 512)) && (m % 512 == n % 512)) ≡ true =
            rw same (ground arith) in
          rw (here, e) refl
      | inr e ↦
          let there : ((pd_of s (m / 512) == pd_of s (n / 512)) && (m % 512 == n % 512)) ≡ false =
            ground (arith, t.pd_ne (m / 512) (n / 512)) in
          rw (there, e) refl
    ])

-- How a page is mapped, where there is a table of small pages, and where there is none.
pub leaf-pt :
    (s : State) (u : ℕ)
    → has_pt s (u / 512) ≡ true
    → leaf s u ≡ s.table (pt_of (pde_at s (u / 512))) (u % 512)
unfolding leaf
leaf-pt s u h = rw h refl

pub leaf-no_pt :
    (s : State) (u : ℕ)
    → has_pt s (u / 512) ≡ false
    → leaf s u ≡ (
        if pde_at s (u / 512) == 0
        then 0
        else u64 (small_of (pde_at s (u / 512)) + u % 512 * page_size))
unfolding leaf
leaf-no_pt s u h = rw h refl

-- Two states map a page alike if they have the same entry for its 2 MiB, and the same table.
pub leaf-same :
    (s s' : State) (u : ℕ)
    → pde_at s' (u / 512) ≡ pde_at s (u / 512)
    → (has_pt s (u / 512) ≡ true
        → s'.table (pt_of (pde_at s (u / 512))) (u % 512)
          ≡ s.table (pt_of (pde_at s (u / 512))) (u % 512))
    → leaf s' u ≡ leaf s u
unfolding leaf
leaf-same s s' u e f = elim (Bool-cases (has_pt s (u / 512))) [
  | inl h ↦ rw (e, h) (f h)
  | inr h ↦ rw (e, h) refl
]
