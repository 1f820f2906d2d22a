-- ===== src/Stage2/Mem/Search.antt =====
-- find_highest_range_below of stage2/mem.c: what it finds.
use biefircate.Prelude.{
  ℕ, zero, suc, ◌+◌, ◌/◌, ◌^◌, ◌≤◌, ◌<◌, ◌≡◌, inl, inr, refl, ◌∙◌, false, List, arith, ltb,
  Bool-cases, lt-cases, length, ok,
}
use biefircate.Prelude.Words.{u32, sub_w}
use biefircate.Bparams.{MemRange}
use biefircate.Stage2.Mem.{range_at, is_above, halve, walk_down}
use biefircate.Stage2.Mem.Layout.{IsMapFrom, range_at_bounds, range_at_order}

-- `is_above` for a range of the map: its end is above the limit.
is_above_lem :
    (max_addr : ℕ) (mr : MemRange)
    → 0 < max_addr
    → max_addr ≤ 2 ^ 32
    → 0 < mr.len
    → mr.start + mr.len ≤ 2 ^ 64
    → is_above max_addr mr ≡ ltb max_addr (mr.start + mr.len)
is_above_lem max_addr mr pos le some_len end = ground arith

-- What the search ends at: a range that ends by the limit, while all those behind it do not.
abbrev pub IsTop : ℕ → List MemRange → ℕ → Type 0
IsTop max_addr mrs i = (i < length mrs) × ((range_at mrs i).start + (range_at mrs i).len ≤ max_addr)

module _ (max_addr : ℕ) (mrs : List MemRange) (pos : 0 < max_addr) (le : max_addr ≤ 2 ^ 32)
    (m : IsMapFrom 0 mrs) where
  above :
      (i : ℕ)
      → i < length mrs
      → is_above max_addr (range_at mrs i)
        ≡ ltb max_addr ((range_at mrs i).start + (range_at mrs i).len)
  above i l =
      let b = range_at_bounds 0 i mrs m l in is_above_lem max_addr (range_at mrs i) pos le b.1 b.2

  pub walk_down_found :
      (left i : ℕ) → left < length mrs → walk_down max_addr mrs left ≡ ok i → IsTop max_addr mrs i
  unfolding walk_down
  walk_down_found zero i l h = ground (arith, above 0 l)
  walk_down_found (suc left) i l h =
      ground (arith, above (suc left) l, walk_down_found left i (omega arith))

  -- From `left` on the walk comes to a range at or above any that ends by the limit.
  pub walk_down-ok :
      (left i : ℕ)
      → left < length mrs
      → i ≤ left
      → (range_at mrs i).start + (range_at mrs i).len ≤ max_addr
      → (j : ℕ) × (walk_down max_addr mrs left ≡ ok j) × (i ≤ j)
  unfolding walk_down
  walk_down-ok zero i l il fits =
      let e : i ≡ 0 = omega arith in
      let top : is_above max_addr (range_at mrs 0) ≡ false = above 0 l ∙ ground arith in
      (0, rw top refl, il)
  walk_down-ok (suc left) i l il fits =
      elim (Bool-cases (is_above max_addr (range_at mrs (suc left)))) [
        | inl e ↦ elim (lt-cases i (suc left)) [
          | inl lt ↦
              let (j, found, le_j) = walk_down-ok left i (omega arith) (omega arith) fits in
              (j, rw e found, le_j)
          | inr ge ↦
              let same : i ≡ suc left = omega arith in absurd (ground (arith, above (suc left) l))
        ]
        | inr e ↦ (suc left, rw e refl, il)
      ]

  fits_below :
      (i j : ℕ)
      → j < length mrs
      → (range_at mrs i).start + (range_at mrs i).len ≤ max_addr
      → i < length mrs
      → max_addr < (range_at mrs j).start + (range_at mrs j).len
      → i < j
  fits_below i j jl fits il over = elim (lt-cases i j) [
    | inl lt ↦ lt
    | inr ge ↦ elim (lt-cases j i) [
      | inl gt ↦ absurd (omega (arith, range_at_order 0 j i mrs m gt il))
      | inr same ↦ let e : i ≡ j = omega arith in absurd (ground arith)
    ]
  ]

  -- The first loop ends, at an index that no range that ends by the limit is above.
  pub halve_lem :
      (rounds left right : ℕ)
      → left < right
      → right ≤ left + rounds + 1
      → right ≤ length mrs
      → length mrs ≤ 2 ^ 30
      → ((i : ℕ)
          → i < length mrs
          → (range_at mrs i).start + (range_at mrs i).len ≤ max_addr
          → i < right)
      → (l : ℕ) × (halve rounds max_addr mrs left right ≡ ok l)
        × (l < length mrs)
        × ((i : ℕ)
            → i < length mrs
            → (range_at mrs i).start + (range_at mrs i).len ≤ max_addr
            → i ≤ l)
  unfolding halve
  halve_lem zero left right lt enough rl small below =
      let done : ltb left (sub_w 32 right 1) ≡ false = ground arith in
      (left, rw done refl, omega arith, λ i il fits. omega (arith, below i il fits))
  halve_lem (suc rounds) left right lt enough rl small below =
      elim (Bool-cases (ltb left (sub_w 32 right 1))) [
        | inl more ↦
            let mid = u32 (left + right) / 2 in
            let mid_in : (left < mid) × (mid < right) = ground arith in
            elim (Bool-cases (is_above max_addr (range_at mrs mid))) [
              | inl high ↦
                  let (l, found, ll, top) =
                    halve_lem rounds left mid mid_in.0 (omega (arith, mid_in))
                      (omega (arith, mid_in)) small
                      (λ i il fits.
                        fits_below i mid (omega (arith, mid_in)) fits il
                          (ground (arith, above mid (omega (arith, mid_in))))) in
                  (l, rw (more, high) found, ll, top)
              | inr low ↦
                  let (l, found, ll, top) =
                    halve_lem rounds mid right mid_in.1 (omega (arith, mid_in)) rl small below in
                  (l, rw (more, low) found, ll, top)
            ]
        | inr done ↦ (left, rw done refl, omega arith, λ i il fits. ground (arith, below i il fits))
      ]
