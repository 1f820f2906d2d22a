-- ===== src/Stage2/Va/Init/Gaps.antt =====
-- va_init of stage2/mem.c maps what lies in front of each hole to itself.
use biefircate.Prelude.{
  ℕ, ◌+◌, ◌-◌, ◌*◌, ◌/◌, ◌^◌, ◌≤◌, ◌<◌, ◌≡◌, inl, inr, sym, subst, true, false, List, [], ◌∷◌,
  arith, leb, Bool-cases, Option-cases, lt-cases, Ends, Ends-bind, Ends-imp,
}
use biefircate.Prelude.Words.{u32, sub_w}
use biefircate.Bparams.{MemRange}
use biefircate.Stage2.Mem.{xm32_max_addr}
use biefircate.Stage2.Mem.Layout.{IsMapFrom}
use biefircate.Stage2.Vm.{VaRange, State, page_size}
use biefircate.Stage2.Vm.Tables.{IsTables}
use biefircate.Stage2.Va.Ranges.{IsSpace, IsPages, is_unused}
use biefircate.Stage2.Va.Init.{
  prev_end_of, next_start_of, add_hole, holes, do_va_id_map, map_between,
}
use biefircate.Stage2.Va.Init.Holes.{
  prev_end_of_lem, next_start_of_lem, holes-last, holes-next, holes-break,
}
use biefircate.Stage2.Va.Init.Identity.{
  IsSelf, IsFilled, IsFilled-refl, IsFilled-trans, IsFilledAt, do_va_id_map_lem,
}

-- The holes lie one behind the other, from `from` on.
abbrev pub IsInOrder : ℕ → List VaRange → Type 0
IsInOrder from [] = Unit
IsInOrder from (vr ∷ vrs) =
    (from ≤ vr.start) × (vr.start < 2 ^ 32) × IsInOrder (vr.start + vr.len) vrs

pub IsInOrder-mono : (a b : ℕ) (vrs : List VaRange) → a ≤ b → IsInOrder b vrs → IsInOrder a vrs
IsInOrder-mono a b [] le h = tt
IsInOrder-mono a b (vr ∷ vrs) le h = (omega (arith, h), h.1, h.2)

add_hole-IsInOrder :
    (g f e start : ℕ) (vrs : List VaRange)
    → g ≤ e
    → g ≤ f
    → 0 < e
    → e < 2 ^ 32
    → start ≤ 2 ^ 32
    → start ≤ f
    → IsInOrder f vrs
    → IsInOrder g (add_hole e start vrs)
add_hole-IsInOrder g f e start vrs ge gf pos small small' le h = elim (Bool-cases (leb start e)) [
  | inl empty ↦ rw empty (IsInOrder-mono g f vrs gf h)
  | inr there ↦
      let from : u32 e ≡ e = omega arith in
      let size : sub_w 32 (u32 start) (u32 e) ≡ start - e = ground arith in
      rw (there, size, from) (ge, small, IsInOrder-mono (e + (start - e)) f vrs (ground arith) h)
]

pub holes-IsInOrder :
    (prev : MemRange) (mrs : List MemRange)
    → IsMapFrom prev.start (prev ∷ mrs)
    → IsInOrder (prev.start + prev.len) (holes prev mrs)
holes-IsInOrder prev [] (low, pos, fits, m) = elim (Option-cases (prev_end_of prev)) [
  | inl e ↦ rw (holes-break prev [] e) tt
  | inr (p, e) ↦
      let (behind, whole, above, small) = prev_end_of_lem prev p pos fits e in
      rw (holes-last prev p e) (
        add_hole-IsInOrder (prev.start + prev.len) (2 ^ 64) p xm32_max_addr [] behind fits
          (omega (arith, above)) small (omega arith) (omega arith) tt)
]
holes-IsInOrder prev (mr ∷ mrs) (low, pos, fits, (next, pos', fits', m)) =
    elim (Option-cases (prev_end_of prev)) [
      | inl e ↦ rw (holes-break prev (mr ∷ mrs) e) tt
      | inr (p, e) ↦
          let (behind, whole, above, small) = prev_end_of_lem prev p pos fits e in
          let (start_low, start_whole, start_small) = next_start_of_lem mr (omega arith) in
          rw (holes-next prev p e mr mrs) (
            add_hole-IsInOrder (prev.start + prev.len) (mr.start + mr.len) p (next_start_of mr)
              (holes mr mrs) behind (omega arith) (omega (arith, above)) small start_small
              (omega (arith, start_low)) (holes-IsInOrder mr mrs (omega arith, pos', fits', m)))
    ]

-- Between `from` and the first hole, and between each two holes, the pages are mapped to themselves.
abbrev pub AreGapsMapped : State → ℕ → List VaRange → Type 0
AreGapsMapped s from [] = Unit
AreGapsMapped s from (vr ∷ vrs) =
    ((u : ℕ) → from ≤ u * page_size → u * page_size < vr.start → IsSelf s u)
    × AreGapsMapped s (vr.start + vr.len) vrs

pub AreGapsMapped-keep :
    (s s' : State) (from : ℕ) (vrs : List VaRange)
    → IsFilled s s'
    → IsInOrder from vrs
    → AreGapsMapped s from vrs
    → AreGapsMapped s' from vrs
AreGapsMapped-keep s s' from [] f o h = tt
AreGapsMapped-keep s s' from (vr ∷ vrs) f o h = (
  λ u lo hi. f.self u (omega (arith, o.1)) (h.0 u lo hi),
  AreGapsMapped-keep s s' (vr.start + vr.len) vrs f o.2 h.1,
)

-- A page in front of an unused address that is not unused itself lies in a gap.
pub AreGapsMapped-at :
    (s : State) (from u y : ℕ) (vrs : List VaRange)
    → AreGapsMapped s from vrs
    → from ≤ u * page_size
    → u * page_size ≤ y
    → is_unused y vrs ≡ true
    → is_unused (u * page_size) vrs ≡ false
    → IsSelf s u
unfolding is_unused
AreGapsMapped-at s from u y [] h lo le yes_y no_u = absurd (let bad = yes_y in cc)
AreGapsMapped-at s from u y (vr ∷ vrs) h lo le yes_y no_u =
    elim (lt-cases (u * page_size) vr.start) [
      | inl before ↦ h.0 u lo before
      | inr behind ↦
          AreGapsMapped-at s (vr.start + vr.len) u y vrs h.1 (ground arith) le (ground arith)
            (ground arith)
    ]

-- The loop of `va_init` between the holes.
pub map_between_lem :
    (prev : VaRange) (vrs : List VaRange) (s : State)
    → IsTables s
    → IsPages prev
    → IsSpace vrs
    → IsInOrder (prev.start + prev.len) vrs
    → Ends
        (λ s'. IsFilled s s' × AreGapsMapped s' (prev.start + prev.len) vrs)
        (map_between prev vrs s)
unfolding map_between
map_between_lem prev [] s t pages space o = (IsFilled-refl s t, tt)
map_between_lem prev (vr ∷ vrs) s t pages space o =
    let from = prev.start + prev.len in
    let v = from / 4096 in
    let c = (vr.start - from) / 4096 in
    let at : u32 from ≡ v * 4096 = omega (arith, pages, o) in
    let size : sub_w 32 vr.start (u32 from) ≡ c * 4096 = omega (arith, pages, o, space.0) in
    let done = λ (s' : State). IsFilled s s' × AreGapsMapped s' from (vr ∷ vrs) in
    let mapped : Ends (IsFilledAt v c s)
        (do_va_id_map (u32 from) (sub_w 32 vr.start (u32 from)) 0 s) =
      subst (λ l. Ends (IsFilledAt v c s) (do_va_id_map (u32 from) l 0 s)) (sym size)
        (subst (λ a. Ends (IsFilledAt v c s) (do_va_id_map a (c * 4096) 0 s)) (sym at)
          (do_va_id_map_lem v c 0 s (omega arith) t (omega (arith, pages, o, space.0)))) in
    Ends-bind (IsFilledAt v c s) done (do_va_id_map (u32 from) (sub_w 32 vr.start (u32 from)) 0 s) _
      mapped
      λ s1 (filled, here).
        Ends-imp (λ s2. IsFilled s1 s2 × AreGapsMapped s2 (vr.start + vr.len) vrs) done
          (map_between vr vrs s1)
          (λ s2 (filled', later). (
            IsFilled-trans s s1 s2 filled filled',
            (
              λ u lo hi.
                  filled'.self u (omega (arith, o.1, hi))
                    (here u (omega (arith, lo)) (omega (arith, hi, lo, pages, space.0))),
              later,
            ),
          ))
          (map_between_lem vr vrs s1 filled.tables space.0 space.2 o.2)
