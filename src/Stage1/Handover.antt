-- ===== src/Stage1/Handover.antt =====
-- stage1/main.c: prepare_to_hand_over, which adds the last boot parameters and leaves the boot services.
pub mod Extended
pub mod Result
mod Tests
use biefircate.Prelude.{
  ℕ, ◌+◌, ◌-◌, ◌*◌, ◌/◌, ◌^◌, ◌%◌, Bool, true, false, ◌&&◌, List, [], ◌∷◌, ltb, leb, ◌!=◌,
  if◌then◌else◌, Outcome, ok, stop, Stop, ◌>>=◌,
}
use biefircate.Prelude.Words.{u64, sub_w}
use biefircate.Bparams.{
  MemRange, Bdat, bp_bmem, sizeof_bmem, e820_ram, e820_reserved, e820_acpi, e820_nvs, e820_pmem,
}
use biefircate.Stage1.Bmem.{page_size, kibyte, bmem_max_addr}
use biefircate.Stage1.Bmem.Init.{MemType, Desc}
use biefircate.Stage1.Bparm.{State, fill, bparm_add, bparm_add_mem_range}
use biefircate.Stage1.Bparm.Fini.{bmem_fini}
use biefircate.Stage1.Rimg.Place.{addr_to_rm_seg}

-- The switch over `desc->Type`.
unfoldable pub type_above : MemType → ℕ
type_above MemType.loader_code = e820_ram
type_above MemType.loader_data = e820_ram
type_above MemType.boot_services_code = e820_ram
type_above MemType.boot_services_data = e820_ram
type_above MemType.conventional = e820_ram
type_above MemType.acpi_reclaim = e820_acpi
type_above MemType.acpi_nvs = e820_nvs
type_above MemType.persistent = e820_pmem
type_above MemType.other = e820_reserved

unfoldable pub end_of : Desc → ℕ
end_of d = u64 (d.physical_start + u64 (d.number_of_pages * page_size))

abbrev pub start_above : Desc → ℕ
start_above d = if ltb d.physical_start bmem_max_addr then bmem_max_addr else d.physical_start

abbrev pub range_above : Desc → MemRange
range_above d = record {
  start = start_above d;
  len = sub_w 64 (end_of d) (start_above d);
  e820_type = type_above d.type;
  e820_ext_attr = 1;
  uefi_attr = d.attribute;
}

-- The loop over the memory map.
unfoldable pub add_extended : List Desc → State → Outcome State
add_extended [] s = ok s
add_extended (d ∷ ds) s = elim (leb (end_of d) bmem_max_addr && (end_of d != 0)) [
  | true ↦ add_extended ds s
  | false ↦ bparm_add_mem_range (range_above d) s >>= λ (bd, s'). add_extended ds s'
]

-- What is written into the parameter of the type BP_BMEM.
abbrev pub bmem_data : ℕ → ℕ → Bdat
bmem_data bot top = Bdat.bmem (record {
  boottime_bmem_bot_seg = addr_to_rm_seg bot;
  runtime_bmem_top_seg = addr_to_rm_seg top;
})

-- `prepare_to_hand_over(image_handle)`: the KiB of base memory. `descs` is the memory map, and `exits`
-- says whether ExitBootServices succeeds.
unfoldable pub prepare_to_hand_over : List Desc → Bool → State → Outcome (ℕ × State)
prepare_to_hand_over descs exits s = add_extended descs s >>= λ s1.
    bparm_add bp_bmem sizeof_bmem s1 >>= λ (bd, s2). bmem_fini descs s2 >>= λ (bot, top, s3).
    if exits then ok (top / kibyte, fill bd (bmem_data bot top) s3) else stop Stop.error
