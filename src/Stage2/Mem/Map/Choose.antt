-- ===== src/Stage2/Mem/Map/Choose.antt =====
-- The range that mem_map_init of stage2/mem.c chooses, and its loops node by node.
use biefircate.Prelude.{
  ℕ, zero, suc, ◌+◌, ◌-◌, ◌≤◌, ◌≡◌, ◌⊎◌, inl, inr, refl, sym, ◌∙◌, true, ◌&&◌, Option, none, some,
  List, [], ◌∷◌, ◌++◌, arith, ltb, ◌==◌, ◌!=◌, if◌then◌else◌, Bool-cases, Option-cases,
}
use biefircate.Prelude.Words.{u32}
use biefircate.Bparams.{Bparm, MemRange}
use biefircate.Stage2.Mem.Map.{
  mrng, ranges_of, count_ranges, is_suitable, is_better, choose, carve, copy,
}

-- A node that holds a range.
abbrev pub IsAt : List Bparm → ℕ → MemRange → Type 0
IsAt [] i r = ⊥
IsAt (bp ∷ bps) zero r = mrng bp ≡ some r
IsAt (bp ∷ bps) (suc i) r = IsAt bps i r

-- The three loops on a node with no range, and on one with a range.
module _ (bp : Bparm) (bps : List Bparm) where
  pub ranges_of-none : mrng bp ≡ none → ranges_of (bp ∷ bps) ≡ ranges_of bps
  unfolding ranges_of
  ranges_of-none e = rw (e, ranges_of) refl

  pub ranges_of-some : (r : MemRange) → mrng bp ≡ some r → ranges_of (bp ∷ bps) ≡ r ∷ ranges_of bps
  unfolding ranges_of
  ranges_of-some r e = rw (e, ranges_of) refl

  pub copy-none :
      (mrs need c i : ℕ)
      → mrng bp ≡ none
      → copy mrs need c (bp ∷ bps) i ≡ copy mrs need c bps (i + 1)
  unfolding copy
  copy-none mrs need c i e = rw (e, copy) refl

  pub copy-some :
      (mrs need c i : ℕ) (r : MemRange)
      → mrng bp ≡ some r
      → copy mrs need c (bp ∷ bps) i ≡ (
          if r.len == 0
          then copy mrs need c bps (i + 1)
          else if i == c
          then carve mrs need r ++ copy mrs need c bps (i + 1)
          else r ∷ copy mrs need c bps (i + 1))
  unfolding copy
  copy-some mrs need c i r e = rw (e, copy) refl

  choose-none :
      (need i : ℕ) (chosen : Option (ℕ × MemRange))
      → mrng bp ≡ none
      → choose need (bp ∷ bps) i chosen ≡ choose need bps (i + 1) chosen
  unfolding choose
  choose-none need i chosen e = rw (e, choose) refl

  choose-some :
      (need i : ℕ) (chosen : Option (ℕ × MemRange)) (r : MemRange)
      → mrng bp ≡ some r
      → choose need (bp ∷ bps) i chosen
        ≡ choose need bps
            (i + 1)
            (if is_suitable need r && is_better r chosen then some (i, r) else chosen)
  unfolding choose
  choose-some need i chosen r e = rw (e, choose) refl

  pub count_ranges-none : (n : ℕ) → mrng bp ≡ none → count_ranges (bp ∷ bps) n ≡ count_ranges bps n
  unfolding count_ranges
  count_ranges-none n e = rw (e, count_ranges) refl

  pub count_ranges-some :
      (n : ℕ) (r : MemRange)
      → mrng bp ≡ some r
      → count_ranges (bp ∷ bps) n ≡ count_ranges bps (if r.len != 0 then u32 (n + 1) else n)
  unfolding count_ranges
  count_ranges-some n r e = rw (e, count_ranges) refl

pub choose_found :
    (need : ℕ) (bps : List Bparm) (i c : ℕ) (chosen : Option (ℕ × MemRange)) (r : MemRange)
    → choose need bps i chosen ≡ some (c, r)
    → (chosen ≡ some (c, r)) ⊎ ((i ≤ c) × IsAt bps (c - i) r × (is_suitable need r ≡ true))
unfolding choose
choose_found need [] i c chosen r h = inl h
choose_found need (bp ∷ bps) i c chosen r h = elim (Option-cases (mrng bp)) [
  | inl e ↦
      go (choose_found need bps (i + 1) c chosen r (rw (choose-none bp bps need i chosen e) at h))
  | inr (q, e) ↦ elim (Bool-cases (is_suitable need q && is_better q chosen)) [
    | inl take ↦
        elim (choose_found need bps (i + 1) c (some (i, q)) r
          (rw (choose-some bp bps need i chosen q e, take) at h)) [
            | inl now ↦
                let e1 : i ≡ c = cc in
                let e2 : q ≡ r = cc in
                let z : c - c ≡ 0 = omega arith in
                inr (rw e1 (omega arith, rw z (rw (sym e2) e), rw (sym e2) (ground arith)))
            | inr later ↦ go (inr later)
          ]
    | inr leave ↦ go (
        choose_found need bps (i + 1) c chosen r
          (rw (choose-some bp bps need i chosen q e, leave) at h))
  ]
]
  where
    go :
        {A : Type 0}
        → A ⊎ ((i + 1 ≤ c) × IsAt bps (c - (i + 1)) r × (is_suitable need r ≡ true))
        → A ⊎ ((i ≤ c) × IsAt (bp ∷ bps) (c - i) r × (is_suitable need r ≡ true))
    go (inl a) = inl a
    go (inr (le, there, good)) =
        let e : c - i ≡ suc (c - (i + 1)) = omega arith in inr (omega arith, rw e there, good)

-- Once a range is chosen, the loop ends with one.
choose-kept :
    (need : ℕ) (bps : List Bparm) (i c : ℕ) (r : MemRange)
    → (c' : ℕ) × (r' : MemRange) × (choose need bps i (some (c, r)) ≡ some (c', r'))
      × (r.start ≤ r'.start)
unfolding choose
choose-kept need [] i c r = (c, r, refl, omega arith)
choose-kept need (bp ∷ bps) i c r = elim (Option-cases (mrng bp)) [
  | inl e ↦ rw (choose-none bp bps need i (some (c, r)) e) (choose-kept need bps (i + 1) c r)
  | inr (q, e) ↦ elim (Bool-cases (is_suitable need q && ltb r.start q.start)) [
    | inl take ↦
        let (c', r', found, above) = choose-kept need bps (i + 1) i q in
        (c', r', choose-some bp bps need i (some (c, r)) q e ∙ rw take found, ground (arith, above))
    | inr leave ↦
        let (c', r', found, above) = choose-kept need bps (i + 1) c r in
        (c', r', choose-some bp bps need i (some (c, r)) q e ∙ rw leave found, above)
  ]
]

-- The loop finds a range if there is a suitable one, and none that starts below it.
pub choose-ok :
    (need : ℕ) (bps : List Bparm) (i k : ℕ) (q : MemRange) (chosen : Option (ℕ × MemRange))
    → IsAt bps k q
    → is_suitable need q ≡ true
    → (c : ℕ) × (r : MemRange) × (choose need bps i chosen ≡ some (c, r)) × (q.start ≤ r.start)
unfolding choose
choose-ok need [] i k q chosen there good = elim there [ ]
choose-ok need (bp ∷ bps) i zero q none there good =
    let (c, r, found, above) = choose-kept need bps (i + 1) i q in
    (c, r, choose-some bp bps need i none q there ∙ rw good found, above)
choose-ok need (bp ∷ bps) i zero q (some (b, best)) there good =
    elim (Bool-cases (ltb best.start q.start)) [
      | inl take ↦
          let (c, r, found, above) = choose-kept need bps (i + 1) i q in
          (c, r, choose-some bp bps need i (some (b, best)) q there ∙ rw (good, take) found, above)
      | inr leave ↦
          let (c, r, found, above) = choose-kept need bps (i + 1) b best in
          (
            c,
            r,
            choose-some bp bps need i (some (b, best)) q there ∙ rw (good, leave) found,
            ground (arith, above),
          )
    ]
choose-ok need (bp ∷ bps) i (suc k) q chosen there good = elim (Option-cases (mrng bp)) [
  | inl e ↦
      rw (choose-none bp bps need i chosen e) (choose-ok need bps (i + 1) k q chosen there good)
  | inr (p, e) ↦ rw (choose-some bp bps need i chosen p e) (
      choose-ok need bps (i + 1) k q
        (if is_suitable need p && is_better p chosen then some (i, p) else chosen) there good)
]
