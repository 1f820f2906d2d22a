-- ===== src/Stage2/Va/Unmap.antt =====
-- mem_va_unmap of stage2/mem.c takes virtual addresses back.
use biefircate.Prelude.{
  ℕ, zero, suc, ◌+◌, ◌-◌, ◌*◌, ◌/◌, ◌^◌, ◌≤◌, ◌<◌, ◌≡◌, ◌⊎◌, inl, inr, ◌∙◌, Bool, true, false, ◌&&◌,
  ◌||◌, List, arith, ltb, leb, ◌==◌, Bool-cases, length, ◌>>=◌, Ends, Ends-bind, Ends-imp,
}
use biefircate.Prelude.Words.{u32, sub_w}
use biefircate.Stage2.Vm.{VaRange, State, page_size, is_large}
use biefircate.Stage2.Vm.Tables.{pde_at, leaf, IsTables}
use biefircate.Stage2.Vm.Unmap.{IsPart, do_va_unmap_lem}
use biefircate.Stage2.Va.{va_at, vstart_of, vend_of, give_back, mem_va_map, mem_va_unmap}
use biefircate.Stage2.Va.Ranges.{
  IsSpace, IsPages, covers, is_unused, va_at-IsPages, is_unused-bounds, grow_lem, insert_after_lem,
}
use biefircate.Stage2.Va.Map.{
  page_down, page_count, IsVaResult, mem_va_map_lem, with_ranges-IsTables, with_ranges-leaf,
}

-- Giving back the block of `sz` bytes from `vstart` on, all of it in use.
module _ (most vstart sz : ℕ) (vrs : List VaRange) (space : IsSpace vrs)
    (pages : IsPages (record { start = vstart; len = sz })) (some : 0 < sz) where
  abbrev block : ℕ → Bool
  block x = covers (record { start = vstart; len = sz }) x

  abbrev IsGivenBack : List VaRange → Type 0
  IsGivenBack vrs' = IsSpace vrs' × ((x : ℕ) → is_unused x vrs' ≡ (is_unused x vrs || block x))

  give_back_from :
      ((x : ℕ) → block x ≡ true → is_unused x vrs ≡ false)
      → (n : ℕ) → n ≤ length vrs
      → Ends IsGivenBack (give_back most vrs vstart (u32 (vstart + sz)) sz n)
  unfolding give_back
  give_back_from clear zero le = tt
  give_back_from clear (suc i) le =
      let vr = va_at vrs i in
      let old = va_at-IsPages i vrs space le in
      elim (Bool-cases (vr.start == u32 (vstart + sz))) [
        | inl below ↦
            let grown : u32 (vr.len + sz) ≡ vr.len + sz = ground (arith, old, pages, some) in
            rw (below, grown)
              (grow_lem i (record { start = vstart; len = vr.len + sz }) block vrs space le
                (ground (arith, old, pages, some)) (λ x. ground (arith, old, pages, some)) clear)
        | inr not_below ↦ elim (Bool-cases (u32 (vr.start + vr.len) == vstart)) [
          | inl above ↦
              let grown : u32 (vr.len + sz) ≡ vr.len + sz = ground (arith, old, pages, some) in
              rw (not_below, above, grown)
                (grow_lem i (record vr { len = vr.len + sz }) block vrs space le
                  (ground (arith, old, pages, some)) (λ x. ground (arith, old, pages, some)) clear)
          | inr not_above ↦ elim (Bool-cases (ltb vr.start vstart)) [
            | inl here ↦ elim (Bool-cases (length vrs == most)) [
              | inl full ↦ rw (not_below, not_above, here, full) tt
              | inr room ↦
                  rw (not_below, not_above, here, room)
                    (insert_after_lem i _ vrs space le pages clear)
            ]
            | inr lower ↦ rw (not_below, not_above, lower) (give_back_from clear i (omega arith))
          ]
        ]
      ]

-- What `mem_va_unmap` gives: the addresses of the pages that the bytes lie in are unused again, no
-- others change; and these pages are not mapped any more, except in large pages that are not wholly among them.
pub record IsVaUnmapped (va sz : ℕ) (s s' : State) : Type 0 where
  pub space : IsSpace s'.unused_va_ranges
  pub unused :
      (x : ℕ)
      → is_unused x s'.unused_va_ranges ≡ (
          is_unused x s.unused_va_ranges
          || covers (record { start = va / 4096 * 4096; len = page_count va sz * 4096 }) x)
  pub tables : IsTables s'
  pub outside :
      (u : ℕ)
      → u < 2 ^ 20
      → (leb (va / 4096) u && ltb u (va / 4096 + page_count va sz)) ≡ false
      → leaf s' u ≡ leaf s u
  pub inside :
      (u : ℕ)
      → u < 2 ^ 20
      → (leb (va / 4096) u && ltb u (va / 4096 + page_count va sz)) ≡ true
      → (leaf s' u ≡ 0)
        ⊎ ((is_large (pde_at s (u / 512)) ≡ true)
            × (leaf s' u ≡ leaf s u)
            × IsPart (va / 4096) (page_count va sz) u)

-- `mem_va_unmap` of some bytes that lie behind page 0 and end by 4 GiB, whose pages are all in use,
-- where the page tables are apart and the unused ranges do not overlap: it ends. If it returns, the
-- addresses of these pages are unused again, and no others change; none of these pages is mapped any
-- more, except in large pages of which only a part is among them, and every other page is mapped as
-- before.
pub mem_va_unmap_lem :
    (va sz : ℕ) (s : State)
    → IsTables s
    → IsSpace s.unused_va_ranges
    → 0 < sz
    → 4096 ≤ va
    → va + sz ≤ 2 ^ 32
    → ((x : ℕ)
        → covers (record { start = va / 4096 * 4096; len = page_count va sz * 4096 }) x ≡ true
        → is_unused x s.unused_va_ranges ≡ false)
    → Ends (IsVaUnmapped va sz s) (mem_va_unmap va sz s)
unfolding mem_va_unmap
mem_va_unmap_lem va sz s t space pos low top clear =
    let some_size : (sz == 0) ≡ false = ground arith in
    let first : vstart_of va ≡ va / 4096 * 4096 = page_down va (omega arith) in
    let last : vend_of va sz ≡ u32 (va / 4096 * 4096 + page_count va sz * 4096) =
      page_down (u32 (va + sz + page_size - 1)) (omega arith) ∙ omega arith in
    let size : sub_w 32 (vend_of va sz) (vstart_of va) ≡ page_count va sz * 4096 =
      omega (arith, first, last) in
    let (s1, done, un) =
      do_va_unmap_lem (2 ^ 20) (va / 4096) (page_count va sz) s t (omega arith) (omega arith) in
    let block : VaRange = record { start = va / 4096 * 4096; len = page_count va sz * 4096 } in
    let pages : IsPages block = omega (arith, low, top, pos) in
    let given =
      give_back_from s1.max_unused_va_ranges block.start block.len s.unused_va_ranges space pages
        (omega (arith, pos)) clear (length s.unused_va_ranges) (omega arith) in
    rw (some_size, size, first, last, done, un.ranges)
      (Ends-bind
        (IsGivenBack s1.max_unused_va_ranges block.start block.len s.unused_va_ranges space pages
          (omega (arith, pos)))
        (IsVaUnmapped va sz s)
        (give_back s1.max_unused_va_ranges s.unused_va_ranges block.start
          (u32 (block.start + block.len)) block.len (length s.unused_va_ranges))
        _ given
        λ vrs (space', law). record {
          space = space';
          unused = law;
          tables = with_ranges-IsTables s1 un.tables vrs;
          outside = λ u ul h. with_ranges-leaf s1 un.tables vrs u ∙ un.outside u ul h;
          inside = λ u ul h. rw (with_ranges-leaf s1 un.tables vrs u) (un.inside u ul h);
        })

-- The virtual addresses that are unused are the same ones in both states.
abbrev pub IsSameSpace : State → State → Type 0
IsSameSpace s s' =
    IsSpace s'.unused_va_ranges
    × ((x : ℕ) → is_unused x s'.unused_va_ranges ≡ is_unused x s.unused_va_ranges)

-- `mem_va_map`, for 1 to 2 ^ 32 - 1 bytes from an address below 2 ^ 52 with flags below the one for
-- large pages, where the page tables are apart and the unused ranges do not overlap, and then
-- `mem_va_unmap` of the address that it gives: they end. If they return, the virtual addresses that are
-- unused are those that were unused before, in ranges that do not overlap.
pub map_unmap_lem :
    (pa sz flags : ℕ) (s : State)
    → IsTables s
    → IsSpace s.unused_va_ranges
    → 0 < sz
    → sz < 2 ^ 32
    → pa < 2 ^ 52
    → flags < 128
    → Ends (IsSameSpace s) (mem_va_map pa sz flags s >>= λ (va, s1). mem_va_unmap va sz s1)
map_unmap_lem pa sz flags s t space pos szl pal fl =
    Ends-bind (IsVaResult pa sz flags s) (IsSameSpace s) (mem_va_map pa sz flags s) _
      (mem_va_map_lem pa sz flags s t space pos szl pal fl)
      λ (va, s1) m.
        let same : page_count va sz ≡ page_count pa sz = omega (arith, m.offset) in
        let block : VaRange = record { start = va / 4096 * 4096; len = page_count pa sz * 4096 } in
        let was =
          λ (x : ℕ) (h : covers block x ≡ true). m.was_unused x (ground arith) (ground arith) in
        let first =
          is_unused-bounds (va / 4096 * 4096) s.unused_va_ranges space (was _ (ground arith)) in
        let last =
          is_unused-bounds (va + sz - 1) s.unused_va_ranges space (was _ (ground (arith, same))) in
        Ends-imp (IsVaUnmapped va sz s1) (IsSameSpace s) (mem_va_unmap va sz s1)
          (λ s2 un. (un.space, λ x. un.unused x ∙ rw same (ground (arith, m.unused x, was x))))
          (mem_va_unmap_lem va sz s1 m.tables m.space pos (omega (arith, first))
            (omega (arith, last)) (rw same (λ x h. m.unused x ∙ ground arith)))
