-- ===== src/Stage1/Handover/Tests.antt =====
-- A run of prepare_to_hand_over, and the theorem about it.
use biefircate.Prelude.{
  ℕ, ◌≡◌, refl, Bool, true, false, List, [], ◌∷◌, arith, Outcome, ok, stop, Stop, ◌>>=◌, Gives,
}
use biefircate.Stage1.Bmem.{
  enough, bmem_alloc_boottime, boottime_scan, skips, take_low, shrink_low, remove_blk,
}
use biefircate.Stage1.Bmem.Init.{MemType, Desc}
use biefircate.Stage1.Bparm.{link, fill, bparm_add, bparm_add_mem_range}
use biefircate.Stage1.Bparm.Fini.{
  e820_type_of, add_uefi_mem_bparms, skip_low, add_blks, add_our_mem_bparms, bmem_fini,
}
use biefircate.Stage1.Bparm.Fini.Tests.{start, start-Holds, rom, code}
use biefircate.Stage1.Handover.{type_above, end_of, range_above, add_extended, prepare_to_hand_over}
use biefircate.Stage1.Handover.Result.{IsOver, prepare_to_hand_over_lem}

abbrev desc : MemType → ℕ → ℕ → Desc
desc type start pages = record {
  type = type;
  physical_start = start;
  number_of_pages = pages;
  attribute = 9;
}

-- A range that begins below 1 MiB, and one that ends at 2 ^ 64.
abbrev across : Desc
across = desc MemType.persistent 0xff000 0x101

abbrev last_one : Desc
last_one = desc MemType.acpi_nvs 0xfffffffffffff000 1

runs_range_above :
    (range_above across ≡ record {
      start = 0x100000;
      len = 0x100000;
      e820_type = 7;
      e820_ext_attr = 1;
      uefi_attr = 9;
    })
    × (range_above last_one ≡ record {
      start = 0xfffffffffffff000;
      len = 0x1000;
      e820_type = 4;
      e820_ext_attr = 1;
      uefi_attr = 9;
    })
unfolding type_above end_of
runs_range_above = (refl, refl)

abbrev descs : List Desc
descs = rom ∷ across ∷ code ∷ last_one ∷ []

abbrev base_kib : Bool → Outcome ℕ
base_kib exits = prepare_to_hand_over descs exits start >>= λ (kib, s). ok kib

runs_handover : (base_kib true ≡ ok 639) × (base_kib false ≡ stop Stop.error)
unfolding prepare_to_hand_over add_extended type_above end_of bmem_fini add_uefi_mem_bparms
    e820_type_of add_our_mem_bparms skip_low add_blks bparm_add_mem_range bparm_add link fill
    bmem_alloc_boottime boottime_scan skips take_low shrink_low remove_blk enough
runs_handover = (refl, refl)

prepare_to_hand_over_lem_example :
    Gives (λ r. (true ≡ true) × IsOver descs [] r) (prepare_to_hand_over descs true start)
prepare_to_hand_over_lem_example =
    prepare_to_hand_over_lem descs true start []
      (omega arith, (omega arith, (omega arith, (omega arith, tt)))) start-Holds
