-- ===== src/Stage2/Va/Map.antt =====
-- mem_va_map of stage2/mem.c makes physical memory appear at virtual addresses.
use biefircate.Prelude.{
  ℕ, ◌+◌, ◌-◌, ◌*◌, ◌/◌, ◌^◌, ◌%◌, ◌≤◌, ◌<◌, ◌≡◌, inl, inr, refl, ap, sym, ◌∙◌, subst, bit_and,
  true, false, not, ◌&&◌, List, arith, ltb, leb, ◌==◌, Bool-cases, Option-cases, length, set,
  Outcome, ok, ◌>>=◌, Ends, Ends-bind,
}
use biefircate.Prelude.Words.{u32, u64, sub_w, neg_w, IsAlignedDown, bit_and-neg}
use biefircate.Stage2.Mem.{xm32_max_addr}
use biefircate.Stage2.Vm.{VaRange, State, page_size, pd_of, do_va_map}
use biefircate.Stage2.Vm.Tables.{leaf, IsTables}
use biefircate.Stage2.Vm.Map.{IsMapResult, IsMapped, do_va_map_lem}
use biefircate.Stage2.Va.{va_at, pstart_of, pend_of, va_scan, take_va, mem_va_map}
use biefircate.Stage2.Va.Ranges.{
  IsSpace, is_unused, va_at-IsPages, va_at-set, shrink_lem, va_scan_found, is_unused-va_at,
}

-- `pa & -(uint64_t)PAGE_SIZE`.
pub page_down : (a : ℕ) → a < 2 ^ 64 → bit_and a (neg_w 64 page_size) ≡ a / 4096 * 4096
page_down a small =
    let down : IsAlignedDown a 4096 (bit_and a (neg_w 64 4096)) =
      bit_and-neg 64 a 4096 small (12, 52, refl, refl) in
    omega (arith, down.below, down.near, down.multiple)

-- How many pages there are from the one that has `pa` to the one that has the last byte.
abbrev pub page_count : ℕ → ℕ → ℕ
page_count pa sz = (pa + sz + 4095) / 4096 - pa / 4096

-- What a successful `mem_va_map` gives: the address has the offset of `pa` in its page; all bytes of
-- the pages that it lies in were unused and are not any more, no others change; and each of these
-- pages is mapped to the physical page that it stands for.
pub record IsVaMapped (pa sz flags : ℕ) (s : State) (va : ℕ) (s' : State) : Type 0 where
  pub tables : IsTables s'
  pub offset : va % 4096 ≡ pa % 4096
  pub was_unused :
      (x : ℕ)
      → va / 4096 * 4096 ≤ x
      → x < (va / 4096 + page_count pa sz) * 4096
      → is_unused x s.unused_va_ranges ≡ true
  pub space : IsSpace s'.unused_va_ranges
  pub unused :
      (x : ℕ)
      → is_unused x s'.unused_va_ranges ≡ (
          is_unused x s.unused_va_ranges
          && not (leb (va / 4096 * 4096) x && ltb x ((va / 4096 + page_count pa sz) * 4096)))
  pub mapped : IsMapped (va / 4096) (pa / 4096) (page_count pa sz) flags s s'

abbrev pub IsVaResult : ℕ → ℕ → ℕ → State → ℕ × State → Type 0
IsVaResult pa sz flags s (va, s') = IsVaMapped pa sz flags s va s'

-- Only the unused ranges differ, so the tables are as they were.
module _ (s : State) (t : IsTables s) (vrs : List VaRange) where
  abbrev pub with_ranges : State
  with_ranges = record s { unused_va_ranges = vrs }

  with_ranges-pd_of : (i : ℕ) → pd_of with_ranges i ≡ pd_of s i
  unfolding pd_of
  with_ranges-pd_of i = refl

  pub with_ranges-IsTables : IsTables with_ranges
  unfolding pd_of
  with_ranges-IsTables = record {
    valid = t.valid;
    pd_taken = t.pd_taken;
    pd_ne = t.pd_ne;
    pt_taken = t.pt_taken;
    pt_pd = t.pt_pd;
    pt_ne = t.pt_ne;
  }

  pub with_ranges-leaf : (u : ℕ) → leaf with_ranges u ≡ leaf s u
  unfolding leaf pd_of
  with_ranges-leaf u = refl

-- The scan has found range `i`, which has room for the `c` pages.
module _ (pa sz flags : ℕ) (s : State) (t : IsTables s) (space : IsSpace s.unused_va_ranges)
    (i : ℕ) where
  abbrev c : ℕ
  c = page_count pa sz

  abbrev vr : VaRange
  vr = va_at s.unused_va_ranges i

  abbrev taken : List VaRange
  taken = set s.unused_va_ranges i (record vr { len = vr.len - c * 4096 })

  -- The first page.
  abbrev v : ℕ
  v = (vr.start + (vr.len - c * 4096)) / 4096

  abbrev steps : List VaRange → ℕ → ℕ → Outcome (ℕ × State)
  steps vrs vstart pstart =
      do_va_map (2 ^ 20) vstart pstart (c * 4096) flags (record s { unused_va_ranges = vrs })
      >>= λ s2. ok (u32 (vstart + pa % page_size), s2)

  module _ (pos : 0 < sz) (szl : sz < 2 ^ 32) (pal : pa < 2 ^ 52) (fl : flags < 128)
      (il : i < length s.unused_va_ranges) (fits : c * 4096 ≤ vr.len) where
    steps-IsVaMapped : Ends (IsVaResult pa sz flags s) (steps taken (v * 4096) (pa / 4096 * 4096))
    steps-IsVaMapped =
        let (low, whole, whole', top) = va_at-IsPages i s.unused_va_ranges space il in
        let (space', unused) =
          shrink_lem i (c * 4096) s.unused_va_ranges space il fits (omega arith) in
        let s1 = with_ranges s t taken in
        Ends-bind (IsMapResult v (pa / 4096) c flags s1) (IsVaResult pa sz flags s)
          (do_va_map (2 ^ 20) (v * 4096) (pa / 4096 * 4096) (c * 4096) flags s1) _
          (do_va_map_lem (2 ^ 20) v (pa / 4096) c flags s1 (with_ranges-IsTables s t taken) fl
            (omega arith) (omega arith) (omega arith))
          λ s2 (t2, kept, mapped).
            let va = u32 (v * 4096 + pa % page_size) in
            let page : va / 4096 ≡ v = omega (arith, top) in
            let from : v * 4096 ≡ vr.start + (vr.len - c * 4096) = omega (arith, whole, whole') in
            let to : (v + c) * 4096 ≡ vr.start + vr.len = omega (arith, from, fits) in
            record {
              tables = t2;
              offset = omega (arith, top);
              was_unused = λ x lo hi.
                  is_unused-va_at i x s.unused_va_ranges il (omega (arith, lo, page, from))
                    (omega (arith, hi, page, to));
              space = rw kept.1 space';
              unused = λ x. rw (kept.1, page, from, to) (unused x);
              mapped = rw page (λ u ul. mapped u ul ∙ rw (with_ranges-leaf s t taken u) refl);
            }

-- `mem_va_map`, for 1 to 2 ^ 32 - 1 bytes from an address below 2 ^ 52 with flags below the one for
-- large pages, where the page tables are apart and the unused ranges do not overlap: it ends. If it
-- returns, its address has the offset of `pa` in its page; all addresses of the pages that the bytes
-- lie in were unused and are not any more, and no others change; each of these pages is mapped to the
-- physical page that it stands for, and every other page as before.
pub mem_va_map_lem :
    (pa sz flags : ℕ) (s : State)
    → IsTables s
    → IsSpace s.unused_va_ranges
    → 0 < sz
    → sz < 2 ^ 32
    → pa < 2 ^ 52
    → flags < 128
    → Ends (IsVaResult pa sz flags s) (mem_va_map pa sz flags s)
unfolding mem_va_map
mem_va_map_lem pa sz flags s t space pos szl pal fl =
    let some_size : (sz == 0) ≡ false = ground arith in
    let first : pstart_of pa ≡ pa / 4096 * 4096 = page_down pa (omega arith) in
    let last : pend_of pa sz ≡ (pa + sz + 4095) / 4096 * 4096 =
      page_down (u64 (pa + sz + page_size - 1)) (omega arith) ∙ omega arith in
    let size : sub_w 64 (pend_of pa sz) (pstart_of pa) ≡ page_count pa sz * 4096 =
      omega (arith, first, last) in
    elim (Bool-cases (leb xm32_max_addr (page_count pa sz * 4096))) [
      | inl big ↦ rw (some_size, size, big) tt
      | inr small ↦
          elim (Option-cases
            (va_scan s.unused_va_ranges (page_count pa sz * 4096) (length s.unused_va_ranges))) [
              | inl none_left ↦ rw (some_size, size, small, none_left) tt
              | inr (i, found) ↦
                  let (il, fits) =
                    va_scan_found s.unused_va_ranges (page_count pa sz * 4096)
                      (length s.unused_va_ranges) i found in
                  let vr' = va_at s.unused_va_ranges i in
                  let (low, whole, whole', top) = va_at-IsPages i s.unused_va_ranges space il in
                  let less : sub_w 32 vr'.len (page_count pa sz * 4096)
                      ≡ vr'.len - page_count pa sz * 4096 =
                    omega (arith, low, top, fits) in
                  let at : va_at
                        (set s.unused_va_ranges i
                          (record vr' { len = vr'.len - page_count pa sz * 4096 }))
                        i
                      ≡ record vr' { len = vr'.len - page_count pa sz * 4096 } =
                    va_at-set s.unused_va_ranges i _ il in
                  let from : u32 (vr'.start + (vr'.len - page_count pa sz * 4096))
                      ≡ v pa sz flags s t space i * 4096 =
                    omega (arith, low, top, whole, whole') in
                  let taken' = λ (l : ℕ). set s.unused_va_ranges i (record vr' { len = l }) in
                  let go : ℕ → ℕ → Outcome (ℕ × State) = λ x p.
                    let s1 = take_va s i x in
                    do_va_map (2 ^ 20)
                      (u32
                        ((va_at s1.unused_va_ranges i).start + (va_at s1.unused_va_ranges i).len))
                      p x flags s1
                    >>= λ s2. ok (
                      u32 (
                          u32 (
                            (va_at s1.unused_va_ranges i).start + (va_at s1.unused_va_ranges i).len)
                          + pa % page_size),
                      s2,
                    ) in
                  let st = steps pa sz flags s t space i in
                  let first' = pa / 4096 * 4096 in
                  let same : go (sub_w 64 (pend_of pa sz) (pstart_of pa)) (pstart_of pa)
                      ≡ st (taken' (vr'.len - page_count pa sz * 4096))
                          (v pa sz flags s t space i * 4096) first' =
                    ap (λ (x : ℕ). go x (pstart_of pa)) size
                    ∙ ap (λ (p : ℕ). go (page_count pa sz * 4096) p) first
                    ∙ ap
                        (λ (l : ℕ).
                          st (taken' l)
                            (u32 ((va_at (taken' l) i).start + (va_at (taken' l) i).len)) first')
                        less
                    ∙ ap
                        (λ (r : VaRange).
                          st (taken' (vr'.len - page_count pa sz * 4096)) (u32 (r.start + r.len))
                            first')
                        at
                    ∙ ap (λ (x : ℕ). st (taken' (vr'.len - page_count pa sz * 4096)) x first')
                        from in
                  rw (some_size, size, small, found)
                    (subst (Ends (IsVaResult pa sz flags s)) (sym same)
                      (steps-IsVaMapped pa sz flags s t space i pos szl pal fl il fits))
            ]
    ]
