-- ===== src/Stage1/Tests.antt =====
-- Runs of the stage 1 modules at concrete inputs, and their theorems at such inputs.
use biefircate.Prelude.{
  ℕ, ◌≤◌, ◌<◌, ◌%◌, ◌≡◌, ◌≢◌, ◌⊎◌, refl, Option, none, some, inl, List, [], ◌∷◌, arith, ok, All,
}
use biefircate.Bparams.{MemRange, Bdat, bp_rsdp, bp_mrng}
use biefircate.Stage1.Bmem
use biefircate.Stage1.Bmem.{
  Blk, skips, alloc_scan, boottime_scan, remove_blk, shrink_low, take_low, bmem_alloc,
  bmem_alloc_boottime,
}
use biefircate.Stage1.Bmem.Layout.{IsFree}
use biefircate.Stage1.Bmem.Alloc.{
  IsValid, IsRequest, IsHandedOut, bmem_alloc_lem, bmem_alloc_succeeds,
}
use biefircate.Stage1.Bmem.Boottime.{bmem_alloc_boottime_lem, bmem_alloc_boottime_succeeds}
use biefircate.Stage1.Bmem.Calls.{
  Call, Region, InRegion, IsApart, make_call, make_calls, make_calls-IsApart,
}
use biefircate.Stage1.Bparm
use biefircate.Stage1.Bparm.{link, fill, bparm_add, bparm_add_mem_range}
use biefircate.Stage1.Bparm.Chain.{
  Holds, blank_param, range_param, bparm_add-Holds, bparm_add_mem_range-Holds,
}

-- Two blocks: [0x1000, 0x9f000) and [0xa0000, 0xa1000).
abbrev low_blk : Blk
low_blk = record { start = 0x1000; end = 0x9f000; orig_end = 0x9f000 }

abbrev high_blk : Blk
high_blk = record { start = 0xa0000; end = 0xa1000; orig_end = 0xa1000 }

abbrev start : Bmem.State
start = record {
  blk = low_blk ∷ high_blk ∷ [];
  boottime_bmem_bot = 0x1000;
  runtime_bmem_top = 0x9f000;
  bmem_uefi_attr = 0xf;
}

start-IsValid : IsValid start
start-IsValid = omega arith

kib2-IsRequest : IsRequest 2048
kib2-IsRequest = record { power = (11, 21, refl, refl); fits = omega arith }

word-IsRequest : IsRequest 8
word-IsRequest = record { power = (3, 29, refl, refl); fits = omega arith }

-- 0x8000 bytes do not fit the upper block.
abbrev after_alloc : Bmem.State
after_alloc = record {
  blk = record { start = 0x1000; end = 0x97000; orig_end = 0x9f000 } ∷ high_blk ∷ [];
  boottime_bmem_bot = 0x1000;
  runtime_bmem_top = 0x97000;
  bmem_uefi_attr = 0xf;
}

runs_alloc : bmem_alloc start 0x8000 2048 ≡ ok (0x97000, after_alloc)
unfolding bmem_alloc alloc_scan
runs_alloc = refl

abbrev after_boottime : Bmem.State
after_boottime = record start {
  blk = record { start = 0x1028; end = 0x9f000; orig_end = 0x9f000 } ∷ high_blk ∷ [];
  boottime_bmem_bot = 0x1028;
}

runs_boottime : bmem_alloc_boottime start 40 8 ≡ ok (0x1000, after_boottime)
unfolding bmem_alloc_boottime boottime_scan skips take_low shrink_low remove_blk
runs_boottime = refl

abbrev calls : List Call
calls = Call.runtime 0x8000 2048 ∷ Call.boottime 40 8 ∷ []

abbrev regions : List Region
regions = record { addr = 0x97000; size = 0x8000 } ∷ record { addr = 0x1000; size = 40 } ∷ []

abbrev after_calls : Bmem.State
after_calls = record after_alloc {
  blk = record { start = 0x1028; end = 0x97000; orig_end = 0x9f000 } ∷ high_blk ∷ [];
  boottime_bmem_bot = 0x1028;
}

runs_calls : make_calls start calls ≡ ok (regions, after_calls)
unfolding make_calls make_call bmem_alloc alloc_scan bmem_alloc_boottime boottime_scan skips
    take_low shrink_low remove_blk
runs_calls = refl

make_calls-IsApart_example :
    IsApart regions
    × All (λ r. (x : ℕ) → InRegion x r → IsFree x start.blk) regions
    × ((x : ℕ) → IsFree x after_calls.blk → IsFree x start.blk)
    × IsValid after_calls
make_calls-IsApart_example =
    make_calls-IsApart start after_calls calls regions start-IsValid
      (kib2-IsRequest, (word-IsRequest, tt)) runs_calls

bmem_alloc_lem_example :
    (0x97000 % 2048 ≡ 0)
    × IsValid after_alloc
    × IsHandedOut start after_alloc 0x97000 0x8000
    × (after_alloc.runtime_bmem_top ≤ 0x97000)
    × (after_alloc.boottime_bmem_bot ≡ start.boottime_bmem_bot)
bmem_alloc_lem_example =
    bmem_alloc_lem start after_alloc 0x8000 2048 0x97000 start-IsValid kib2-IsRequest runs_alloc

bmem_alloc_succeeds_example :
    (a : ℕ) × (s' : Bmem.State) × (bmem_alloc start 0x8000 2048 ≡ ok (a, s'))
bmem_alloc_succeeds_example =
    bmem_alloc_succeeds start 0x8000 2048 0 0x80000 256 start-IsValid kib2-IsRequest (omega arith)
      refl (omega arith) (omega arith)

bmem_alloc_boottime_lem_example :
    (0x1000 % 8 ≡ 0)
    × (0x1000 < 0x9f000)
    × IsValid after_boottime
    × IsHandedOut start after_boottime 0x1000 40
    × (after_boottime.runtime_bmem_top ≡ start.runtime_bmem_top)
    × (after_boottime.boottime_bmem_bot ≡ 0x1028)
bmem_alloc_boottime_lem_example =
    bmem_alloc_boottime_lem start after_boottime 40 8 0x1000 start-IsValid word-IsRequest
      runs_boottime

bmem_alloc_boottime_succeeds_example :
    (a : ℕ) × (s' : Bmem.State) × (bmem_alloc_boottime start 40 8 ≡ ok (a, s')) × (a ≤ 0x2000)
bmem_alloc_boottime_succeeds_example =
    bmem_alloc_boottime_succeeds start 40 8 0 0x2000 0x400 start-IsValid word-IsRequest
      (omega arith) refl (omega arith) (omega arith) (omega arith)

abbrev no_params : Bparm.State
no_params = record { bmem = start; bp_head = 0; bp_tail = 0; node = λ a. none }

no_params-Holds : Holds no_params []
no_params-Holds = record {
  valid = start-IsValid;
  chain = refl;
  tail = inl refl;
  distinct = tt;
  taken = tt;
}

abbrev ram : MemRange
ram = record {
  start = 0x100000;
  len = 0x7f00000;
  e820_type = 1;
  e820_ext_attr = 1;
  uefi_attr = 0xf;
}

abbrev one_param : Bparm.State
one_param =
    link no_params
      (record after_boottime {
        blk = record { start = 0x101c; end = 0x9f000; orig_end = 0x9f000 } ∷ high_blk ∷ [];
        boottime_bmem_bot = 0x101c;
      })
      0x1000 bp_rsdp 12

runs_add : bparm_add bp_rsdp 12 no_params ≡ ok (0x1000, one_param)
unfolding bparm_add bmem_alloc_boottime boottime_scan skips take_low shrink_low remove_blk
runs_add = refl

bparm_add-Holds_example :
    Holds one_param ((0x1000, blank_param bp_rsdp 12) ∷ [])
    × IsHandedOut start one_param.bmem 0x1000 28
bparm_add-Holds_example =
    bparm_add-Holds no_params one_param [] bp_rsdp 12 0x1000 no_params-Holds runs_add

abbrev with_ram : Bparm.State
with_ram = fill 0x1020 (Bdat.mem_range ram) (
    link one_param
      (record after_boottime {
        blk = record { start = 0x1050; end = 0x9f000; orig_end = 0x9f000 } ∷ high_blk ∷ [];
        boottime_bmem_bot = 0x1050;
      })
      0x1020 bp_mrng 32)

runs_add_mem_range : bparm_add_mem_range ram one_param ≡ ok (some 0x1020, with_ram)
unfolding bparm_add_mem_range bparm_add bmem_alloc_boottime boottime_scan skips take_low shrink_low
    remove_blk link
runs_add_mem_range = refl

abbrev added : Option ℕ
added = some 0x1020

bparm_add_mem_range-Holds_example :
    ((ram.len ≡ 0) × (added ≡ none) × (with_ram ≡ one_param))
    ⊎ ((ram.len ≢ 0)
        × (a : ℕ) × (added ≡ some a)
        × Holds with_ram ((0x1000, blank_param bp_rsdp 12) ∷ (a, range_param ram) ∷ []))
bparm_add_mem_range-Holds_example =
    bparm_add_mem_range-Holds one_param with_ram ((0x1000, blank_param bp_rsdp 12) ∷ []) ram added
      bparm_add-Holds_example.0 runs_add_mem_range
