-- ===== src/Stage2/Va/Init/Result.antt =====
-- What va_init of stage2/mem.c comes to: page tables that map the memory to itself.
use biefircate.Prelude.{
  ℕ, ◌+◌, ◌*◌, ◌/◌, ◌^◌, ◌%◌, ◌≤◌, ◌<◌, ◌≡◌, inl, refl, sym, ◌∙◌, subst, true, false, none, List,
  [], ◌∷◌, arith, Ends, Ends-bind, Ends-of, Ends-imp,
}
use biefircate.Prelude.Words.{u32}
use biefircate.Bparams.{MemRange}
use biefircate.Stage2.Mem
use biefircate.Stage2.Mem.{range_at, mem_alloc}
use biefircate.Stage2.Mem.Layout.{IsMapFrom, type_of}
use biefircate.Stage2.Mem.Alloc.{IsValid, IsRequest, mem_alloc_lem}
use biefircate.Stage2.Mem.Ends.{mem_alloc-Ends}
use biefircate.Stage2.Mem.Grows.{Grows, mem_alloc-Grows}
use biefircate.Stage2.Vm.{VaRange, State, page_size, pdpt_align}
use biefircate.Stage2.Vm.Tables.{IsTables}
use biefircate.Stage2.Va.Ranges.{IsSpace, is_unused}
use biefircate.Stage2.Va.Init.{
  bmem_end, uefi_attr_to_pte_flags, do_va_id_map, holes, holes_of, sizeof_va_range, add_directories,
  first_of, later_of, map_between, map_attributes, map_memory, va_init,
}
use biefircate.Stage2.Va.Init.Holes.{holes_lem}
use biefircate.Stage2.Va.Init.Directories.{
  AreDirectories, AreAdded, directories-IsTables, directories-leaf, add_directories_lem,
}
use biefircate.Stage2.Va.Init.Identity.{
  flags-small, IsSelf, IsSelfOrNone, IsFilled, IsFilled-refl, IsFilled-trans, IsFilledAt,
  do_va_id_map_lem,
}
use biefircate.Stage2.Va.Init.Attributes.{map_attributes_lem}
use biefircate.Stage2.Va.Init.Gaps.{
  IsInOrder, IsInOrder-mono, holes-IsInOrder, AreGapsMapped, AreGapsMapped-keep, AreGapsMapped-at,
  map_between_lem,
}

-- The holes are in order, from 0 on.
abbrev AreUnused : List VaRange → Type 0
AreUnused vrs = IsSpace vrs × IsInOrder 0 vrs

-- What the three mapping steps do.
abbrev IsMemoryMapped : State → State → Type 0
IsMemoryMapped s s' = IsFilled s s' × AreGapsMapped s' 0 s.unused_va_ranges

module _ (fresh : VaRange) (whole : fresh.start % 4096 ≡ 0) (low : fresh.start < 2 ^ 32) where
  first_start :
      (vrs : List VaRange)
      → IsSpace vrs
      → IsInOrder 0 vrs
      → ((first_of fresh vrs).start % 4096 ≡ 0) × ((first_of fresh vrs).start < 2 ^ 32)
  first_start [] space o = (whole, low)
  first_start (vr ∷ vrs) space o = (space.0.1, o.1)

  -- `do_va_id_map` up to the first hole.
  first_lem :
      (vrs : List VaRange) (a : ℕ) (s : State)
      → IsTables s
      → AreUnused vrs
      → Ends
          (λ s'.
            IsFilled s s' × ((u : ℕ) → u * page_size < (first_of fresh vrs).start → IsSelf s' u))
          (do_va_id_map 0 (first_of fresh vrs).start (uefi_attr_to_pte_flags a) s)
  first_lem vrs a s t (space, o) =
      let (whole', low') = first_start vrs space o in
      let c = (first_of fresh vrs).start / 4096 in
      let size : (first_of fresh vrs).start ≡ c * 4096 = omega (arith, whole') in
      let flags = uefi_attr_to_pte_flags a in
      let done = λ (s' : State).
        IsFilled s s' × ((u : ℕ) → u * page_size < (first_of fresh vrs).start → IsSelf s' u) in
      subst (λ l. Ends done (do_va_id_map 0 l flags s)) (sym size)
        (Ends-imp (IsFilledAt 0 c s) done (do_va_id_map 0 (c * 4096) flags s)
          (λ s' (filled, here). (filled, λ u hi. here u (omega arith) (omega (arith, hi, size))))
          (do_va_id_map_lem 0 c flags s (flags-small a) t (omega (arith, low'))))

  -- What lies between the holes, once the first part is mapped.
  between_lem :
      (vrs : List VaRange) (s : State)
      → IsTables s
      → AreUnused vrs
      → ((u : ℕ) → u * page_size < (first_of fresh vrs).start → IsSelf s u)
      → Ends
          (λ s'. IsFilled s s' × AreGapsMapped s' 0 vrs)
          (map_between (first_of fresh vrs) (later_of vrs) s)
  unfolding map_between
  between_lem [] s t un first = (IsFilled-refl s t, tt)
  between_lem (vr ∷ vrs) s t (space, o) first =
      Ends-imp (λ s'. IsFilled s s' × AreGapsMapped s' (vr.start + vr.len) vrs)
        (λ s'. IsFilled s s' × AreGapsMapped s' 0 (vr ∷ vrs)) (map_between vr vrs s)
        (λ s' (filled, later).
          (filled, (λ u lo hi. filled.self u (omega (arith, o.1, hi)) (first u hi), later)))
        (map_between_lem vr vrs s t space.0 space.2 o.2)

  map_memory_lem :
      (s : State)
      → IsTables s
      → AreUnused s.unused_va_ranges
      → Ends (IsMemoryMapped s) (map_memory fresh s)
  unfolding map_memory
  map_memory_lem s t un =
      let vrs = s.unused_va_ranges in
      Ends-bind
        (λ s1. IsFilled s s1 × ((u : ℕ) → u * page_size < (first_of fresh vrs).start → IsSelf s1 u))
        (IsMemoryMapped s)
        (do_va_id_map 0 (first_of fresh vrs).start
          (uefi_attr_to_pte_flags (range_at s.mem.mem_ranges 0).uefi_attr) s)
        _ (first_lem vrs (range_at s.mem.mem_ranges 0).uefi_attr s t un)
        λ s1 (filled1, first).
          Ends-bind (λ s2. IsFilled s1 s2 × AreGapsMapped s2 0 vrs) (IsMemoryMapped s)
            (map_between (first_of fresh vrs) (later_of vrs) s1) _
            (between_lem vrs s1 filled1.tables un first)
            λ s2 (filled2, gaps).
              Ends-imp (IsFilled s2) (IsMemoryMapped s) (map_attributes s2.mem.max_mem_ranges 0 s2)
                (λ s3 filled3. (
                  IsFilled-trans s s1 s3 filled1 (IsFilled-trans s1 s2 s3 filled2 filled3),
                  AreGapsMapped-keep s2 s3 0 vrs filled3 un.1 gaps,
                ))
                (map_attributes_lem s2.mem.max_mem_ranges 0 s2 filled2.tables (omega arith))

-- What an allocation of `va_init` keeps.
record IsAfter (m m' : Mem.State) : Type 0 where
  valid : IsValid m'
  grows : Grows m m'
  none_before : (x : ℕ) → type_of x m'.mem_ranges ≡ none → type_of x m.mem_ranges ≡ none

abbrev IsAllocated : Mem.State → ℕ × Mem.State → Type 0
IsAllocated m (a, m') = IsAfter m m'

mem_alloc-IsAfter :
    (m : Mem.State) (sz align : ℕ)
    → IsValid m
    → IsRequest sz align 0
    → Ends (IsAllocated m) (mem_alloc m sz align 0)
mem_alloc-IsAfter m sz align v r =
    Ends-of (IsAllocated m) (mem_alloc m sz align 0)
      (λ (a, m') e.
        let (aend, multiple, fits, near, below, ram, (valid, types)) =
          mem_alloc_lem m m' sz align 0 a v r e in
        record {
          valid = valid;
          grows = mem_alloc-Grows m m' sz align 0 a v r e;
          none_before = λ x h. ground (arith, types x);
        })
      (mem_alloc-Ends m sz align 0 v r)

-- The page tables are apart; the unused addresses are whole pages in ranges that do not overlap, not
-- below 1 MiB, and with no memory of the map `m` behind them; a page that is mapped is mapped to itself;
-- and so is each page in front of some unused address that is not unused itself.
pub record IsSetUp (m : Mem.State) (s : State) : Type 0 where
  pub tables : IsTables s
  pub space : IsSpace s.unused_va_ranges
  pub no_memory :
      (x : ℕ)
      → is_unused x s.unused_va_ranges ≡ true
      → (bmem_end ≤ x) × (type_of x m.mem_ranges ≡ none)
  pub to_itself : (u : ℕ) → u < 2 ^ 20 → IsSelfOrNone s u
  pub mapped :
      (u y : ℕ)
      → u * page_size ≤ y
      → is_unused y s.unused_va_ranges ≡ true
      → is_unused (u * page_size) s.unused_va_ranges ≡ false
      → IsSelf s u

abbrev pub IsInitResult : Mem.State → ℕ × State → Type 0
IsInitResult m (pdpt, s') = IsSetUp m s'

holes_of_lem :
    (mrs : List MemRange)
    → IsMapFrom 0 mrs
    → AreUnused (holes_of mrs)
      × ((x : ℕ) → is_unused x (holes_of mrs) ≡ true → (bmem_end ≤ x) × (type_of x mrs ≡ none))
unfolding is_unused
holes_of_lem [] m = ((tt, tt), λ x h. absurd (let bad = h in cc))
holes_of_lem (mr ∷ mrs) m =
    let (space, out) = holes_lem mr mrs m in
    let o = holes-IsInOrder mr mrs (omega arith, m.1, m.2, m.3) in
    ((space, IsInOrder-mono 0 (mr.start + mr.len) (holes mr mrs) (omega arith) o), out)

-- The state with the new directories, mapped.
mapped-IsSetUp :
    (m m1 : Mem.State) (s s1 : State)
    → IsValid m1
    → IsAfter m m1
    → s.unused_va_ranges ≡ holes_of m1.mem_ranges
    → AreDirectories s 4
    → IsMemoryMapped s s1
    → IsSetUp m s1
mapped-IsSetUp m m1 s s1 v after same d (filled, gaps) =
    let ((space, o), out) = holes_of_lem m1.mem_ranges v.laid_out in
    let is : s1.unused_va_ranges ≡ holes_of m1.mem_ranges = filled.kept.1 ∙ same in
    let gaps' : AreGapsMapped s1 0 (holes_of m1.mem_ranges) = rw same at gaps in
    record {
      tables = filled.tables;
      space = rw is space;
      no_memory = λ x h.
          let (above, none_there) = out x (rw is at h) in (above, after.none_before x none_there);
      to_itself = λ u l. filled.self_or_none u l (inl (directories-leaf s d u l));
      mapped = λ u y le h g.
          AreGapsMapped-at s1 0 u y (holes_of m1.mem_ranges) gaps' (omega arith) le (rw is at h)
            (rw is at g);
    }

-- `va_init`, from a valid memory map of fewer than 2 ^ 29 ranges, where the array's first entry holds an
-- address of a whole page unless it is written: it ends, whatever the attributes of the ranges are. If it
-- returns, the page tables are apart; the unused addresses are whole pages from 1 MiB on, in ranges that do
-- not overlap, with no memory behind them; each page is mapped to itself or not at all; and each page in
-- front of some unused address that is not unused itself is mapped to itself.
pub va_init_lem :
    (fresh : VaRange) (s : State)
    → IsValid s.mem
    → s.mem.max_mem_ranges < 2 ^ 29
    → fresh.start % 4096 ≡ 0
    → fresh.start < 2 ^ 32
    → Ends (IsInitResult s.mem) (va_init fresh s)
unfolding va_init
va_init_lem fresh s v few whole low =
    let mvr = s.mem.max_mem_ranges in
    let pos : 0 < u32 (mvr * sizeof_va_range) = omega (arith, v.some_range, v.room) in
    let result = IsInitResult s.mem in
    Ends-bind (IsAllocated s.mem) result (mem_alloc s.mem (u32 (mvr * sizeof_va_range)) 4 0) _
      (mem_alloc-IsAfter s.mem (u32 (mvr * sizeof_va_range)) 4 v
        (record { size = pos; power = (2, 30, refl, refl); in_word = omega arith }))
      λ (unused, m1) after1.
        Ends-bind (IsAllocated m1) result (mem_alloc m1 32 pdpt_align 0) _
          (mem_alloc-IsAfter m1 32 pdpt_align after1.valid
            (record { size = omega arith; power = (5, 27, refl, refl); in_word = omega arith }))
          λ (pdpt, m2) after2.
            let s0 : State = record s {
              mem = m2;
              unused_va_ranges = holes_of m1.mem_ranges;
              max_unused_va_ranges = mvr;
            } in
            Ends-bind (AreAdded 4 s0) result (add_directories 4 0 s0) _
              (add_directories_lem s0 after2.valid)
              λ s1 (d, same, grows).
                let un : AreUnused s1.unused_va_ranges =
                  rw same ((holes_of_lem m1.mem_ranges after1.valid.laid_out).0) in
                Ends-bind (IsMemoryMapped s1) result (map_memory fresh s1) _
                  (map_memory_lem fresh whole low s1 (directories-IsTables s1 d) un)
                  λ s2 mapped. mapped-IsSetUp s.mem m1 s1 s2 after1.valid after1 same d mapped
