-- ===== src/Stage2/Va/Init.antt =====
-- stage2/mem.c: va_init, which finds the virtual addresses without memory behind them, makes the
-- first page tables, and maps the memory to itself.
pub mod Holes
pub mod Identity
pub mod Directories
pub mod Attributes
pub mod Gaps
pub mod Result
mod Tests
use biefircate.Prelude.{
  ℕ, zero, suc, ◌+◌, ◌-◌, ◌*◌, ◌/◌, ◌^◌, ◌%◌, bit_and, bit_or, Bool, true, false, ◌&&◌, ◌||◌,
  Option, none, some, List, [], ◌∷◌, ltb, leb, ◌==◌, ◌!=◌, if◌then◌else◌, length, Outcome, ok, stop,
  Stop, ◌>>=◌,
}
use biefircate.Prelude.Words.{u32, u64, sub_w, neg_w}
use biefircate.Bparams.{Bparm, MemRange}
use biefircate.Stage2.Mem.{xm32_max_addr, range_at, mem_alloc}
use biefircate.Stage2.Mem.Map.{mem_map_init}
use biefircate.Stage2.Vm.{
  VaRange, State, page_size, pdpt_align, pte_p, pte_wt, pte_cd, set_table, do_va_map,
}

-- BMEM_MAX_ADDR, EFI_MEMORY_WT and EFI_MEMORY_WB.
abbrev pub bmem_end : ℕ
bmem_end = 0x100000

abbrev pub efi_memory_wt : ℕ
efi_memory_wt = 4

abbrev pub efi_memory_wb : ℕ
efi_memory_wb = 8

-- `uefi_attr_to_pte_flags(uefi_attr)`.
unfoldable pub uefi_attr_to_pte_flags : ℕ → ℕ
uefi_attr_to_pte_flags attr =
    if bit_and attr efi_memory_wb != 0
    then 0
    else if bit_and attr efi_memory_wt != 0
    then pte_wt
    else pte_cd

-- `do_va_id_map(start, len, pte_flags)`.
unfoldable pub do_va_id_map : ℕ → ℕ → ℕ → State → Outcome State
do_va_id_map start len flags s = do_va_map (2 ^ 20) start start len flags s

-- The end of a range, in whole pages, or none where the loop breaks.
unfoldable pub prev_end_of : MemRange → Option ℕ
prev_end_of mr =
    let whole = bit_and (u64 (u64 (mr.start + mr.len) + page_size - 1)) (neg_w 64 page_size) in
    if leb (xm32_max_addr - 1) (sub_w 64 (u64 (mr.start + mr.len)) 1)
    then none
    else if leb (xm32_max_addr - 1) (sub_w 64 whole 1)
    then none
    else some (if ltb whole bmem_end then bmem_end else whole)

-- The start of the next range, in whole pages.
unfoldable pub next_start_of : MemRange → ℕ
next_start_of mr =
    let start = bit_and mr.start (neg_w 64 page_size) in
    if ltb xm32_max_addr start then xm32_max_addr else start

abbrev pub add_hole : ℕ → ℕ → List VaRange → List VaRange
add_hole prev_end start rest =
    if leb start prev_end
    then rest
    else record { start = u32 prev_end; len = sub_w 32 (u32 start) (u32 prev_end) } ∷ rest

-- The loop of `va_init` that fills the array, from the range `prev` on.
unfoldable pub holes : MemRange → List MemRange → List VaRange
holes prev [] = elim (prev_end_of prev) [ none ↦ [] | some e ↦ add_hole e xm32_max_addr [] ]
holes prev (mr ∷ mrs) =
    let rest = holes mr mrs in
    elim (prev_end_of prev) [ none ↦ [] | some e ↦ add_hole e (next_start_of mr) rest ]

abbrev pub sizeof_va_range : ℕ
sizeof_va_range = 8

-- The whole loop. There is always a first range.
abbrev pub holes_of : List MemRange → List VaRange
holes_of [] = []
holes_of (mr ∷ mrs) = holes mr mrs

-- A new page directory, for the `i`-th GiB.
abbrev pub with_directory : State → ℕ → ℕ → State
with_directory s i pd = record (set_table s pd (λ k. 0)) {
  pdpt = λ j. if j == i then bit_or (u32 pd) pte_p else s.pdpt j;
}

-- The loop of `va_init` over the directories, with `left` to come.
unfoldable pub add_directories : ℕ → ℕ → State → Outcome State
add_directories zero i s = ok s
add_directories (suc left) i s = mem_alloc s.mem page_size page_size 0 >>= λ (pd, mem).
    add_directories left (i + 1) (with_directory (record s { mem = mem }) i pd)

-- The loop that maps what lies between the holes.
unfoldable pub map_between : VaRange → List VaRange → State → Outcome State
map_between prev [] s = ok s
map_between prev (vr ∷ vrs) s =
    do_va_id_map (u32 (prev.start + prev.len)) (sub_w 32 vr.start (u32 (prev.start + prev.len))) 0 s
    >>= map_between vr vrs

-- What the last loop maps of a range: its start and its length below 4 GiB, in whole pages.
abbrev pub len_below : MemRange → ℕ
len_below mr =
    if leb (xm32_max_addr - u32 mr.start) mr.len
    then sub_w 32 (u32 xm32_max_addr) (u32 mr.start)
    else u32 mr.len

unfoldable pub attr_start : MemRange → ℕ
attr_start mr =
    if u32 mr.start % page_size != 0
    then bit_and (u32 mr.start) (neg_w 32 page_size)
    else u32 mr.start

unfoldable pub attr_len : MemRange → ℕ
attr_len mr =
    let len =
      if u32 mr.start % page_size != 0
      then u32 (len_below mr + u32 mr.start % page_size)
      else len_below mr in
    if len % page_size != 0 then bit_and (u32 (len + page_size - 1)) (neg_w 32 page_size) else len

-- Its loop over the ranges that do not start behind `start64`, with `left` rounds left.
unfoldable pub skip_same : List MemRange → ℕ → ℕ → ℕ → ℕ
skip_same mrs start64 zero i = i
skip_same mrs start64 (suc left) i =
    let rest = skip_same mrs start64 left (i + 1) in
    if ltb i (length mrs) && leb (range_at mrs i).start start64 then rest else i

-- The last loop, from range `i` on. It has a round for each place of the array at most.
unfoldable pub map_attributes : ℕ → ℕ → State → Outcome State
map_attributes zero i s = if ltb i (length s.mem.mem_ranges) then stop Stop.out_of_fuel else ok s
map_attributes (suc rounds) i s = elim (ltb i (length s.mem.mem_ranges)) [
  | false ↦ ok s
  | true ↦
      let mr = range_at s.mem.mem_ranges i in
      let flags = uefi_attr_to_pte_flags mr.uefi_attr in
      elim ((flags == 0) || leb xm32_max_addr mr.start) [
        | true ↦ map_attributes rounds (i + 1) s
        | false ↦ do_va_id_map (attr_start mr) (attr_len mr) flags s >>= λ s'.
            map_attributes rounds
              (skip_same s'.mem.mem_ranges mr.start (length s'.mem.mem_ranges) i) s'
      ]
]

-- The first hole and the others. `fresh` is what the array's memory holds where nothing was written.
abbrev pub first_of : VaRange → List VaRange → VaRange
first_of fresh [] = fresh
first_of fresh (vr ∷ vrs) = vr

abbrev pub later_of : List VaRange → List VaRange
later_of [] = []
later_of (vr ∷ vrs) = vrs

-- The mappings that `va_init` makes: what lies before the first hole, between the holes, and where
-- the attributes want it.
unfoldable pub map_memory : VaRange → State → Outcome State
map_memory fresh s =
    do_va_id_map 0 (first_of fresh s.unused_va_ranges).start
      (uefi_attr_to_pte_flags (range_at s.mem.mem_ranges 0).uefi_attr) s
    >>= λ s1.
        map_between (first_of fresh s.unused_va_ranges) (later_of s.unused_va_ranges) s1 >>= λ s2.
        map_attributes s2.mem.max_mem_ranges 0 s2

-- `va_init()`: the address of the page-directory-pointer table, for cr3, and the state.
unfoldable pub va_init : VaRange → State → Outcome (ℕ × State)
va_init fresh s =
    let mvr = s.mem.max_mem_ranges in
    mem_alloc s.mem (u32 (mvr * sizeof_va_range)) 4 0 >>= λ (unused, mem1).
    mem_alloc mem1 32 pdpt_align 0 >>= λ (pdpt, mem2).
    add_directories 4 0 (record s {
      mem = mem2;
      unused_va_ranges = holes_of mem1.mem_ranges;
      max_unused_va_ranges = mvr;
    })
    >>= λ s1. map_memory fresh s1 >>= λ s2. ok (pdpt, s2)

-- `mem_init(bparms)`, from a state whose other variables are not set yet.
unfoldable pub mem_init : List Bparm → VaRange → State → Outcome (ℕ × State)
mem_init bps fresh s = mem_map_init bps >>= λ mem. va_init fresh (record s { mem = mem })
