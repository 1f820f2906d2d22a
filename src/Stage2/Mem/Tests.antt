-- ===== src/Stage2/Mem/Tests.antt =====
-- Runs of the memory allocator of stage 2, and its theorems at concrete inputs.
use biefircate.Prelude.{
  ◌*◌, ℕ, ◌+◌, ◌%◌, ◌≤◌, ◌<◌, ◌≡◌, refl, Bool, true, some, List, [], ◌∷◌, arith, length, ok,
}
use biefircate.Bparams.{Bdat, Bparm, bp_mrng, bp_rsdp, MemRange, e820_ram}
use biefircate.Stage2.Mem.{
  xm32_max_addr, State, shift_up, insert, insertions, passes, double, shellsort, halve, walk_down,
  find_highest_range_below, double_at, split_range, visit, mem_scan, limit, mem_alloc,
}
use biefircate.Stage2.Mem.Map.{
  mrng, count_ranges, array_size, need_space, is_suitable, choose, carve, copy, mem_map_init,
}
use biefircate.Stage2.Mem.Map.Choose.{IsAt}
use biefircate.Stage2.Mem.Map.Carve.{IsMapOf, mem_map_init_lem}
use biefircate.Stage2.Mem.Sort.{count, IsInOrder, shellsort_lem}
use biefircate.Stage2.Mem.Layout.{type_of}
use biefircate.Stage2.Mem.Alloc.{IsValid, IsRequest, IsReservedIn, mem_alloc_lem}

abbrev range : ℕ → ℕ → ℕ → MemRange
range start len type = record {
  start = start;
  len = len;
  e820_type = type;
  e820_ext_attr = 1;
  uefi_attr = 8;
}

abbrev low_ram : MemRange
low_ram = range 0 0x9f000 1

abbrev rom : MemRange
rom = range 0xf0000 0x10000 2

abbrev high_ram : MemRange
high_ram = range 0x100000 0x7f00000 1

abbrev unsorted : List MemRange
unsorted = high_ram ∷ rom ∷ low_ram ∷ []

abbrev start : State
start = record { mem_ranges = low_ram ∷ rom ∷ high_ram ∷ []; max_mem_ranges = 16 }

runs_sort : shellsort unsorted ≡ ok start.mem_ranges
unfolding shellsort double passes insertions insert shift_up
runs_sort = refl

-- A page at the top of extended memory.
abbrev after_page : State
after_page = record {
  mem_ranges = low_ram ∷ rom ∷ range 0x100000 0x7eff000 1 ∷ range 0x7fff000 0x1000 2 ∷ [];
  max_mem_ranges = 16;
}

runs_alloc : mem_alloc start 0x1000 0x1000 0 ≡ ok (0x7fff000, after_page)
unfolding mem_alloc find_highest_range_below halve walk_down mem_scan visit split_range double_at
runs_alloc = refl

start-IsValid : IsValid start
start-IsValid = record {
  laid_out = omega arith;
  some_range = omega arith;
  room = omega arith;
  in_word = omega arith;
}

page-IsRequest : IsRequest 0x1000 0x1000 0
page-IsRequest = record { size = omega arith; power = (12, 20, refl, refl); in_word = omega arith }

shellsort_lem_example :
    (sorted : List MemRange) × (shellsort unsorted ≡ ok sorted)
    × IsInOrder sorted
    × (length sorted ≡ length unsorted)
    × ((t : MemRange → Bool) → count t sorted ≡ count t unsorted)
shellsort_lem_example = shellsort_lem unsorted (omega arith)

mem_alloc_lem_example :
    (aend : ℕ) × (0x7fff000 % 0x1000 ≡ 0)
    × (0x7fff000 + 0x1000 ≤ aend)
    × (aend < 0x7fff000 + 0x1000 + 0x1000)
    × (aend ≤ limit 0)
    × ((x : ℕ) → 0x7fff000 ≤ x → x < aend → type_of x start.mem_ranges ≡ some e820_ram)
    × IsReservedIn start after_page 0x7fff000 aend
mem_alloc_lem_example =
    mem_alloc_lem start after_page 0x1000 0x1000 0 0x7fff000 start-IsValid page-IsRequest runs_alloc

abbrev node : MemRange → Bparm
node r = record { type = bp_mrng; size = 32; u = Bdat.mem_range r }

abbrev params : List Bparm
params =
    node high_ram
    ∷ record { type = bp_rsdp; size = 12; u = Bdat.blank }
    ∷ node low_ram
    ∷ node rom
    ∷ node (range 0xa0000 0 2)
    ∷ []

-- 16 entries at the top of extended memory.
runs_map :
    mem_map_init params
    ≡ ok (record {
      mem_ranges = low_ram ∷ rom ∷ range 0x100000 0x7effe00 1 ∷ range 0x7fffe00 0x200 2 ∷ [];
      max_mem_ranges = 16;
    })
unfolding mem_map_init choose copy carve count_ranges array_size is_suitable mrng shellsort double
    passes insertions insert shift_up
runs_map = refl

params-suitable : is_suitable (need_space params) high_ram ≡ true
unfolding is_suitable array_size count_ranges mrng
params-suitable = refl

high_ram-IsAt : IsAt params 0 high_ram
unfolding mrng
high_ram-IsAt = refl

mem_map_init_lem_example :
    (s : State) × (mrs : ℕ) × (mem_map_init params ≡ ok s)
    × IsInOrder s.mem_ranges
    × (length s.mem_ranges ≤ s.max_mem_ranges)
    × (16 ≤ s.max_mem_ranges)
    × (s.max_mem_ranges * 32 ≡ need_space params)
    × (mrs + need_space params ≤ xm32_max_addr)
    × (high_ram.start ≤ mrs)
    × IsMapOf params mrs s.mem_ranges
mem_map_init_lem_example =
    mem_map_init_lem params 0 high_ram (omega arith) high_ram-IsAt params-suitable
