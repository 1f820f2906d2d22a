-- ===== src/Stage1/Bmem/Boottime.antt =====
-- bmem_alloc_boottime of stage1/bmem.c.
use Prim.Native.Nat.{max}
use native.Mathlib.Nat.{mod-eq_of_lt, one-le-pow}
use biefircate.Prelude.{
  ℕ, zero, suc, ◌+◌, ◌-◌, ◌*◌, ◌%◌, ◌≤◌, ◌<◌, ◌≡◌, ◌↔◌, ap, ◌∙◌, inl, inr, refl, false, some, List,
  [], ◌∷◌, arith, length, ok, ◌==◌, lt-cases, Option-cases, Bool-cases,
}
use biefircate.Prelude.Words.{u32, sub_w, IsAlignedDown, bit_and-neg, multiple-le}
use biefircate.Stage1.Bmem.{
  Blk, State, blk_at, low_astart, skips, boottime_scan, shrink_low, take_low, bmem_alloc_boottime,
  bmem_max_addr, page_size,
}
use biefircate.Stage1.Bmem.Layout.{
  IsLaidOut, IsFree, blk_at_bounds, blk_at_order, IsPart, set-IsLaidOut, set-IsFree, blk_at-IsFree,
  remove_blk-IsLaidOut, remove_blk-IsFree,
}
use biefircate.Stage1.Bmem.Alloc.{IsValid, IsRequest, IsHandedOut}

-- A block has room for `size` bytes at a multiple of `align`, and `astart` is the lowest place.
pub record IsLowest (size align astart : ℕ) (b : Blk) : Type 0 where
  pub above : b.start ≤ astart
  pub room : astart + size ≤ b.end
  pub multiple : astart % align ≡ 0
  pub near : astart < b.start + align

pub align_pos : {align : ℕ} → IsRequest align → 0 < align
align_pos r = omega (arith, one-le-pow r.power.0 2 (omega arith), r.power.3)

low_astart_lem :
    (align : ℕ) (b : Blk)
    → IsRequest align
    → b.start ≤ bmem_max_addr
    → IsAlignedDown (b.start + align - 1) align (low_astart align b)
low_astart_lem align b r h =
    let word : u32 align ≡ align = mod-eq_of_lt (omega (arith, r.fits)) in
    let same : sub_w 32 (u32 (b.start + align)) 1 ≡ b.start + align - 1 =
      omega (arith, r.fits, align_pos r) in
    rw (word, same) (bit_and-neg 32 (b.start + align - 1) align (omega (arith, r.fits)) r.power)

-- What the three guards of the loop let through.
abbrev Passes : ℕ → ℕ → Blk → Type 0
Passes size align b =
    (size ≤ sub_w 32 b.end b.start)
    × (low_astart align b ≤ b.end)
    × (size ≤ sub_w 32 b.end (low_astart align b))

skips_iff : (size align : ℕ) (b : Blk) → (skips size align b ≡ false) ↔ Passes size align b
unfolding skips
skips_iff size align b = ground arith

scan_found :
    (size align : ℕ) (bs : List Blk) (i j astart : ℕ)
    → boottime_scan size align bs i ≡ some (j, astart)
    → (k : ℕ) × (j ≡ i + k)
      × (k < length bs)
      × (skips size align (blk_at bs k) ≡ false)
      × (astart ≡ low_astart align (blk_at bs k))
unfolding boottime_scan
scan_found size align [] i j astart h = cc
scan_found size align (b ∷ bs) i j astart h = elim (Bool-cases (skips size align b)) [
  | inl e ↦
      let rest : boottime_scan size align bs (i + 1) ≡ some (j, astart) = rw e at h in
      let (k, at, inside, p, q) = scan_found size align bs (i + 1) j astart rest in
      (suc k, omega arith, omega arith, p, q)
  | inr e ↦ (0, ground arith, omega arith, e, ground arith)
]

-- Every block below the one that is found is passed over.
scan_skips :
    (size align : ℕ) (bs : List Blk) (i k : ℕ)
    → k < length bs
    → skips size align (blk_at bs k) ≡ false
    → (j : ℕ) × (boottime_scan size align bs i ≡ some (i + j, low_astart align (blk_at bs j)))
      × (j ≤ k)
unfolding boottime_scan
scan_skips size align [] i k l p = absurd (omega arith)
scan_skips size align (b ∷ bs) i zero l p = (0, ground arith, omega arith)
scan_skips size align (b ∷ bs) i (suc k) l p =
    let (j, e, le) = scan_skips size align bs (i + 1) k (omega arith) p in
    elim (Bool-cases (skips size align b)) [
      | inl pass ↦ (
        suc j,
        rw pass (e ∙ ap (λ t. some (t, low_astart align (blk_at bs j))) (omega arith)),
        omega arith,
      )
      | inr take ↦ (0, rw take (ap (λ t. some (t, low_astart align b)) (omega arith)), omega arith)
    ]

boottime_inv :
    (s s' : State) (size align astart : ℕ)
    → bmem_alloc_boottime s size align ≡ ok (astart, s')
    → (i : ℕ) × (boottime_scan size align s.blk 0 ≡ some (i, astart))
      × (s' ≡ take_low s i astart size)
      × (astart < s.runtime_bmem_top)
unfolding bmem_alloc_boottime
boottime_inv s s' size align astart h = elim (Option-cases (boottime_scan size align s.blk 0)) [
  | inl e ↦ absurd (ground arith)
  | inr ((i, a), e) ↦ (i, ground arith, ground arith, ground arith)
]

place_lem :
    (size align : ℕ) (b : Blk)
    → IsRequest align
    → b.start ≤ b.end
    → b.end ≤ bmem_max_addr
    → skips size align b ≡ false
    → IsLowest size align (low_astart align b) b
place_lem size align b r h p e =
    let pass = (skips_iff size align b).0 e in
    let down = low_astart_lem align b r (omega arith) in
    record {
      above = omega (arith, down.near, align_pos r);
      room = omega (arith, down.near);
      multiple = down.multiple;
      near = omega (arith, down.below, align_pos r);
    }

module _ (lo i aend : ℕ) (bs : List Blk) (laid : IsLaidOut lo bs) (inside : i < length bs)
    (after : (blk_at bs i).start ≤ aend) (before : aend ≤ (blk_at bs i).end) where
  rest-IsPart : IsPart (record (blk_at bs i) { start = aend }) (blk_at bs i)
  rest-IsPart = record {
    start_in = after;
    ordered = before;
    end_in = omega arith;
    same_orig = refl;
  }

  shrink_low-IsLaidOut : IsLaidOut lo (shrink_low bs i aend)
  unfolding shrink_low
  shrink_low-IsLaidOut = elim (Bool-cases (aend == (blk_at bs i).end)) [
    | inl e ↦ rw e (remove_blk-IsLaidOut lo i bs laid)
    | inr e ↦ rw e (set-IsLaidOut lo i bs _ laid rest-IsPart)
  ]

  -- What is free afterwards was free, and does not lie in the block below `aend`.
  shrink_low-IsFree :
      (x : ℕ)
      → IsFree x (shrink_low bs i aend)
      → IsFree x bs × ((blk_at bs i).start ≤ x → x < aend → ⊥)
  unfolding shrink_low
  shrink_low-IsFree x f = elim (Bool-cases (aend == (blk_at bs i).end)) [
    | inl e ↦
        let old = remove_blk-IsFree lo i x bs laid inside (rw e at f) in
        (old.0, λ p q. old.1 (omega arith))
    | inr e ↦
        let old = set-IsFree lo i x bs _ laid inside rest-IsPart (rw e at f) in
        (old.0, λ p q. omega (arith, old.1 (omega arith)))
  ]

module _ (s : State) (i size align astart : ℕ) (v : IsValid s) (inside : i < length s.blk)
    (place : IsLowest size align astart (blk_at s.blk i)) where
  bounds :
      (page_size ≤ (blk_at s.blk i).start)
      × ((blk_at s.blk i).start ≤ (blk_at s.blk i).end)
      × ((blk_at s.blk i).end ≤ (blk_at s.blk i).orig_end)
      × ((blk_at s.blk i).orig_end ≤ bmem_max_addr)
  bounds = blk_at_bounds page_size i s.blk v.laid_out inside

  aend-eq : u32 (astart + size) ≡ astart + size
  aend-eq = omega (arith, place.room, bounds)

  take_low-IsValid : IsValid (take_low s i astart size)
  unfolding take_low
  take_low-IsValid = record {
    laid_out =
        shrink_low-IsLaidOut page_size i (u32 (astart + size)) s.blk v.laid_out inside
          (omega (arith, aend-eq, place.above)) (omega (arith, aend-eq, place.room));
    top_in = v.top_in;
    bot_in = ground (arith, v.bot_in, aend-eq, place.room, bounds);
  }

  take_low-IsHandedOut : IsHandedOut s (take_low s i astart size) astart size
  unfolding take_low
  take_low-IsHandedOut x =
      let old =
        shrink_low-IsFree page_size i (u32 (astart + size)) s.blk v.laid_out inside
          (omega (arith, aend-eq, place.above)) (omega (arith, aend-eq, place.room)) x in
      (
        λ lo hi. (
          blk_at-IsFree i x s.blk inside (omega (arith, place.above, place.room)),
          λ f. (old f).1 (omega (arith, place.above)) (omega (arith, aend-eq)),
        ),
        λ f. (old f).0,
      )

-- What `bmem_alloc_boottime` does to a valid state, when it returns: `astart` is a multiple of
-- `align` below the end of the run-time memory, which stays; the state is valid again; every byte
-- from `astart` on for `size` was free, and none of them is free afterwards; no byte becomes free;
-- and the boot-time memory now ends at `astart + size` or where it did, whichever is higher.
pub bmem_alloc_boottime_lem :
    (s s' : State) (size align astart : ℕ)
    → IsValid s
    → IsRequest align
    → bmem_alloc_boottime s size align ≡ ok (astart, s')
    → (astart % align ≡ 0)
      × (astart < s.runtime_bmem_top)
      × IsValid s'
      × IsHandedOut s s' astart size
      × (s'.runtime_bmem_top ≡ s.runtime_bmem_top)
      × (s'.boottime_bmem_bot ≡ max s.boottime_bmem_bot (astart + size))
bmem_alloc_boottime_lem s s' size align astart v r h =
    let (i, e, g, below) = boottime_inv s s' size align astart h in
    let (k, at, inside, pass, place) = scan_found size align s.blk 0 i astart e in
    let same : i ≡ k = omega arith in
    let here = blk_at_bounds page_size k s.blk v.laid_out inside in
    let lowest : IsLowest size align astart (blk_at s.blk k) =
      rw place (place_lem size align _ r here.1 (omega arith) pass) in
    rw (g, same)
      (
        lowest.multiple,
        below,
        take_low-IsValid s k size align astart v inside lowest,
        take_low-IsHandedOut s k size align astart v inside lowest,
        unfold take_low in refl,
        unfold take_low in ground (arith, aend-eq s k size align astart v inside lowest),
      )

low_astart-min :
    (align x q : ℕ) (b : Blk)
    → IsRequest align
    → b.start ≤ bmem_max_addr
    → x ≡ q * align
    → b.start ≤ x
    → low_astart align b ≤ x
low_astart-min align x q b r h e le =
    let down = low_astart_lem align b r h in
    omega (
      arith,
      multiple-le align (low_astart align b) q down.multiple
          (omega (arith, down.below, align_pos r)),
    )

-- The loop stops at the block that has room, or at one below it.
scan_total :
    (s : State) (size align i x : ℕ)
    → IsValid s
    → IsRequest align
    → i < length s.blk
    → skips size align (blk_at s.blk i) ≡ false
    → low_astart align (blk_at s.blk i) ≤ x
    → (blk_at s.blk i).start ≤ x
    → (j : ℕ) × (a : ℕ) × (boottime_scan size align s.blk 0 ≡ some (j, a)) × (a ≤ x)
scan_total s size align i x v r l p low le =
    let (j, e, before) = scan_skips size align s.blk 0 i l p in
    let (k, at, inside, pass, place) = scan_found size align s.blk 0 (0 + j) _ e in
    (
      0 + j,
      low_astart align (blk_at s.blk j),
      e,
      elim (lt-cases j i) [
        | inl less ↦
            let same : j ≡ k = omega arith in
            let ok_j : Passes size align (blk_at s.blk j) =
              (skips_iff size align (blk_at s.blk j)).0 (rw same pass) in
            omega (
              arith,
              ok_j.1,
              blk_at_order page_size j i s.blk v.laid_out less l,
              blk_at_bounds page_size j s.blk v.laid_out (omega arith),
            )
        | inr more ↦ let same : j ≡ i = omega arith in rw same low
      ],
    )

-- `bmem_alloc_boottime` returns whenever some block has room: a place `x` at a multiple of `align`
-- below the end of the run-time memory, with `size` bytes, inside the free part of a block. What
-- it returns is then not above `x`.
pub bmem_alloc_boottime_succeeds :
    (s : State) (size align i x q : ℕ)
    → IsValid s
    → IsRequest align
    → i < length s.blk
    → x ≡ q * align
    → (blk_at s.blk i).start ≤ x
    → x + size ≤ (blk_at s.blk i).end
    → x < s.runtime_bmem_top
    → (a : ℕ) × (s' : State) × (bmem_alloc_boottime s size align ≡ ok (a, s')) × (a ≤ x)
unfolding bmem_alloc_boottime
bmem_alloc_boottime_succeeds s size align i x q v r l e p g t =
    let here = blk_at_bounds page_size i s.blk v.laid_out l in
    let low = low_astart-min align x q (blk_at s.blk i) r (omega arith) e p in
    let pass = (skips_iff size align (blk_at s.blk i)).1 (omega arith, omega arith, omega arith) in
    let (j, a, found, le) = scan_total s size align i x v r l pass low p in
    (a, take_low s j a size, ground arith, le)
