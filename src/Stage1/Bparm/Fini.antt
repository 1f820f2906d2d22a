-- ===== src/Stage1/Bparm/Fini.antt =====
-- stage1/bmem.c: bmem_fini, which adds the memory ranges below 1 MiB to the boot parameters.
pub mod Ranges
pub mod Result
pub mod Tests
use biefircate.Prelude.{
  ℕ, zero, suc, ◌+◌, ◌-◌, ◌*◌, ◌^◌, bit_and, Bool, true, false, Option, none, some, List, [], ◌∷◌,
  ltb, leb, if◌then◌else◌, length, Outcome, ok, stop, Stop, ◌>>=◌,
}
use biefircate.Prelude.Words.{u32, u64, sub_w, neg_w}
use biefircate.Bparams.{MemRange, e820_ram, e820_reserved, e820_acpi, e820_nvs, e820_pmem}
use biefircate.Stage1.Bmem
use biefircate.Stage1.Bmem.{Blk, blk_at, page_size, para_size, kibyte, bmem_max_addr, enough}
use biefircate.Stage1.Bmem.Init.{MemType, Desc}
use biefircate.Stage1.Bparm.{State, bparm_add_mem_range}

-- The switch of `add_uefi_mem_bparms`; usable memory is skipped.
unfoldable pub e820_type_of : MemType → Option ℕ
e820_type_of MemType.loader_code = none
e820_type_of MemType.loader_data = none
e820_type_of MemType.boot_services_code = none
e820_type_of MemType.boot_services_data = none
e820_type_of MemType.conventional = none
e820_type_of MemType.acpi_reclaim = some e820_acpi
e820_type_of MemType.acpi_nvs = some e820_nvs
e820_type_of MemType.persistent = some e820_pmem
e820_type_of MemType.other = some e820_reserved

-- `sz`, cut off at the 1 MiB mark.
abbrev pub size_below : Desc → ℕ
size_below d =
    let sz = u64 (d.number_of_pages * page_size) in
    if ltb (bmem_max_addr - d.physical_start) sz then bmem_max_addr - d.physical_start else sz

abbrev pub desc_range : Desc → ℕ → MemRange
desc_range d e820_type = record {
  start = d.physical_start;
  len = size_below d;
  e820_type = e820_type;
  e820_ext_attr = 1;
  uefi_attr = d.attribute;
}

-- `add_uefi_mem_bparms(descs, num_ents, desc_sz)`.
unfoldable pub add_uefi_mem_bparms : List Desc → State → Outcome State
add_uefi_mem_bparms [] s = ok s
add_uefi_mem_bparms (d ∷ ds) s = elim (leb bmem_max_addr d.physical_start) [
  | true ↦ add_uefi_mem_bparms ds s
  | false ↦ elim (e820_type_of d.type) [
    | none ↦ add_uefi_mem_bparms ds s
    | some t ↦ bparm_add_mem_range (desc_range d t) s >>= λ (bd, s'). add_uefi_mem_bparms ds s'
  ]
]

-- The index of the first block that does not start below `top`, from index `i` on.
unfoldable pub skip_low : List Blk → ℕ → ℕ → ℕ
skip_low [] top i = i
skip_low (b ∷ bs) top i = let rest = skip_low bs top (i + 1) in if ltb b.start top then rest else i

abbrev pub own_range : ℕ → ℕ → ℕ → ℕ → MemRange
own_range start len e820_type attr = record {
  start = start;
  len = len;
  e820_type = e820_type;
  e820_ext_attr = 1;
  uefi_attr = attr;
}

-- The last loop of `add_our_mem_bparms`. The blocks can become fewer while it runs, never more.
unfoldable pub add_blks : ℕ → ℕ → State → Outcome State
add_blks zero blk_idx s = if ltb blk_idx (length s.bmem.blk) then stop Stop.out_of_fuel else ok s
add_blks (suc rounds) blk_idx s = elim (ltb blk_idx (length s.bmem.blk)) [
  | false ↦ ok s
  | true ↦
      let b = blk_at s.bmem.blk blk_idx in
      bparm_add_mem_range
        (own_range b.start (sub_w 32 b.end b.start) e820_ram s.bmem.bmem_uefi_attr) s
      >>= λ (bd, s1).
          bparm_add_mem_range
            (own_range b.end (sub_w 32 b.orig_end b.end) e820_reserved s1.bmem.bmem_uefi_attr) s1
          >>= λ (bd', s2). add_blks rounds (blk_idx + 1) s2
]

-- `add_our_mem_bparms()`.
unfoldable pub add_our_mem_bparms : State → Outcome State
add_our_mem_bparms s =
    bparm_add_mem_range (own_range 0 s.bmem.runtime_bmem_top e820_ram s.bmem.bmem_uefi_attr) s
    >>= λ (bd, s1).
        add_blks (length s1.bmem.blk) (skip_low s1.bmem.blk s1.bmem.runtime_bmem_top 0) s1

abbrev pub bot_up : ℕ → ℕ
bot_up bot = u32 (bit_and (u64 (bot + para_size - 1)) (neg_w 64 para_size))

abbrev pub top_down : ℕ → ℕ
top_down top = u32 (bit_and top (neg_w 64 kibyte))

abbrev pub rounded : State → State
rounded s = record s {
  bmem = record s.bmem {
    boottime_bmem_bot = bot_up s.bmem.boottime_bmem_bot;
    runtime_bmem_top = top_down s.bmem.runtime_bmem_top;
  };
}

-- `bmem_fini(...)`, with the two numbers that it writes through its pointers.
unfoldable pub bmem_fini : List Desc → State → Outcome (ℕ × ℕ × State)
bmem_fini descs s = add_uefi_mem_bparms descs s >>= λ s1. add_our_mem_bparms s1 >>= λ s2.
    let s3 = rounded s2 in
    if enough s3.bmem
    then ok (s3.bmem.boottime_bmem_bot, s3.bmem.runtime_bmem_top, s3)
    else stop Stop.error
