-- ===== src/Stage2/Va/Init/Holes.antt =====
-- The virtual addresses that va_init of stage2/mem.c takes for unused have no memory behind them.
use biefircate.Prelude.{
  ℕ, ◌+◌, ◌-◌, ◌^◌, ◌%◌, ◌≤◌, ◌<◌, ◌≡◌, inl, inr, refl, true, none, some, List, [], ◌∷◌, arith, leb,
  Bool-cases, Option-cases,
}
use biefircate.Prelude.Words.{u32, u64, sub_w}
use biefircate.Bparams.{MemRange}
use biefircate.Stage2.Mem.{xm32_max_addr}
use biefircate.Stage2.Mem.Layout.{IsMapFrom, type_of}
use biefircate.Stage2.Vm.{VaRange, page_size}
use biefircate.Stage2.Va.Ranges.{IsSpace, is_unused, covers}
use biefircate.Stage2.Va.Map.{page_down}
use biefircate.Stage2.Va.Init.{bmem_end, prev_end_of, next_start_of, add_hole, holes}

-- The holes are whole pages from 1 MiB on, behind `from`, and no address of theirs is in the map.
abbrev AreHoles : ℕ → List MemRange → List VaRange → Type 0
AreHoles from mrs vrs =
    IsSpace vrs
    × ((x : ℕ) → is_unused x vrs ≡ true → (from ≤ x) × (bmem_end ≤ x) × (type_of x mrs ≡ none))

pub prev_end_of_lem :
    (mr : MemRange) (e : ℕ)
    → 0 < mr.len
    → mr.start + mr.len ≤ 2 ^ 64
    → prev_end_of mr ≡ some e
    → (mr.start + mr.len ≤ e) × (e % 4096 ≡ 0) × (bmem_end ≤ e) × (e < 2 ^ 32)
unfolding prev_end_of
prev_end_of_lem mr e pos fits h =
    let down = page_down (u64 (u64 (mr.start + mr.len) + page_size - 1)) (omega arith) in
    (ground (arith, down), ground (arith, down), ground (arith, down), ground (arith, down))

pub next_start_of_lem :
    (mr : MemRange)
    → mr.start < 2 ^ 64
    → (next_start_of mr ≤ mr.start) × (next_start_of mr % 4096 ≡ 0) × (next_start_of mr ≤ 2 ^ 32)
unfolding next_start_of
next_start_of_lem mr small =
    let down = page_down mr.start small in
    (ground (arith, down), ground (arith, down), ground (arith, down))

IsMapFrom-type_of :
    (from x : ℕ) (mrs : List MemRange) → IsMapFrom from mrs → x < from → type_of x mrs ≡ none
unfolding type_of
IsMapFrom-type_of from x [] m l = refl
IsMapFrom-type_of from x (mr ∷ mrs) m l =
    let rest = IsMapFrom-type_of (mr.start + mr.len) x mrs m.3 (omega (arith, m)) in
    ground (arith, m)

type_of-behind :
    (x : ℕ) (mr : MemRange) (mrs : List MemRange)
    → mr.start + mr.len ≤ x
    → type_of x mrs ≡ none
    → type_of x (mr ∷ mrs) ≡ none
unfolding type_of
type_of-behind x mr mrs above none_here = ground arith

-- A hole in front of the others.
add_hole-AreHoles :
    (g e start : ℕ) (mrs : List MemRange) (vrs : List VaRange)
    → g ≤ e
    → e % 4096 ≡ 0
    → bmem_end ≤ e
    → e < 2 ^ 32
    → start % 4096 ≡ 0
    → start ≤ 2 ^ 32
    → IsMapFrom start mrs
    → ((x : ℕ) → is_unused x vrs ≡ true → start ≤ x)
    → AreHoles g mrs vrs
    → AreHoles g mrs (add_hole e start vrs)
unfolding is_unused
add_hole-AreHoles g e start mrs vrs ge whole low small whole' small' map above (space, out) =
    elim (Bool-cases (leb start e)) [
      | inl empty ↦ rw empty (space, out)
      | inr there ↦
          let from : u32 e ≡ e = omega arith in
          let size : sub_w 32 (u32 start) (u32 e) ≡ start - e = ground arith in
          let vr : VaRange = record { start = e; len = start - e } in
          rw (there, size, from)
            (
              (
                ground arith,
                λ x h. elim (Bool-cases (is_unused x vrs)) [
                  | inl bad ↦ absurd (ground (arith, above x bad))
                  | inr good ↦ good
                ],
                space,
              ),
              λ x h. elim (Bool-cases (covers vr x)) [
                | inl here ↦
                    (ground arith, ground arith, IsMapFrom-type_of start x mrs map (ground arith))
                | inr later ↦ out x (ground arith)
              ],
            )
    ]

-- What the loop makes of a range, by its end.
module _ (prev : MemRange) (e : ℕ) (found : prev_end_of prev ≡ some e) where
  pub holes-last : holes prev [] ≡ add_hole e xm32_max_addr []
  unfolding holes
  holes-last = rw (found, holes) refl

  pub holes-next :
      (mr : MemRange) (mrs : List MemRange)
      → holes prev (mr ∷ mrs) ≡ add_hole e (next_start_of mr) (holes mr mrs)
  unfolding holes
  holes-next mr mrs = rw (found, holes) refl

pub holes-break :
    (prev : MemRange) (mrs : List MemRange) → prev_end_of prev ≡ none → holes prev mrs ≡ []
unfolding holes
holes-break prev [] e = rw (e, holes) refl
holes-break prev (mr ∷ mrs) e = rw (e, holes) refl

holes_from :
    (prev : MemRange) (mrs : List MemRange)
    → IsMapFrom prev.start (prev ∷ mrs)
    → AreHoles (prev.start + prev.len) mrs (holes prev mrs)
unfolding is_unused
holes_from prev [] (low, pos, fits, m) = elim (Option-cases (prev_end_of prev)) [
  | inl e ↦ rw (holes-break prev _ e) (tt, λ x h. absurd (ground arith))
  | inr (p, e) ↦
      let (behind, whole, above, small) = prev_end_of_lem prev p pos fits e in
      rw (holes-last prev p e) (
        add_hole-AreHoles (prev.start + prev.len) p xm32_max_addr [] [] behind whole above small
          refl (omega arith) tt (λ x h. absurd (ground arith)) (tt, λ x h. absurd (ground arith)))
]
holes_from prev (mr ∷ mrs) (low, pos, fits, (next, pos', fits', m)) =
    let (space, out) = holes_from mr mrs (omega arith, pos', fits', m) in
    elim (Option-cases (prev_end_of prev)) [
      | inl e ↦ rw (holes-break prev _ e) (tt, λ x h. absurd (ground arith))
      | inr (p, e) ↦
          let (behind, whole, above, small) = prev_end_of_lem prev p pos fits e in
          let (start_low, start_whole, start_small) = next_start_of_lem mr (omega arith) in
          rw (holes-next prev p e mr mrs) (
            add_hole-AreHoles (prev.start + prev.len) p (next_start_of mr) (mr ∷ mrs) (holes mr mrs)
              behind whole above small start_whole start_small (start_low, pos', fits', m)
              (λ x h. omega (arith, (out x h).0, start_low))
              (
                space,
                λ x h.
                    let (above', low', none_here) = out x h in
                    (omega (arith, above', next), low', type_of-behind x mr mrs above' none_here),
              ))
    ]

-- The virtual addresses that `va_init` takes for unused, from a memory map in order whose ranges do not
-- overlap: they are whole pages in ranges that do not overlap, and none of them is below 1 MiB or has
-- memory of the map behind it.
pub holes_lem :
    (prev : MemRange) (mrs : List MemRange)
    → IsMapFrom 0 (prev ∷ mrs)
    → IsSpace (holes prev mrs)
      × ((x : ℕ)
          → is_unused x (holes prev mrs) ≡ true
          → (bmem_end ≤ x) × (type_of x (prev ∷ mrs) ≡ none))
holes_lem prev mrs (low, pos, fits, m) =
    let (space, out) = holes_from prev mrs (omega arith, pos, fits, m) in
    (
      space,
      λ x h.
          let (above, low', none_here) = out x h in
          (low', type_of-behind x prev mrs above none_here),
    )
