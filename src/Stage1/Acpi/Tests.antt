-- ===== src/Stage1/Acpi/Tests.antt =====
-- A run of acpi_init on three small tables, and the theorem about it.
use biefircate.Prelude.{
  ℕ, ◌≡◌, refl, ◌&&◌, [], ◌∷◌, arith, Outcome, ok, stop, Stop, ◌>>=◌, Gives, ◌==◌, if◌then◌else◌,
}
use biefircate.Stage1.Bmem.{
  bmem_alloc_boottime, boottime_scan, skips, take_low, shrink_low, remove_blk,
}
use biefircate.Stage1.Bparm.{link, fill, bparm_add}
use biefircate.Stage1.Bparm.Fini.Tests.{start, start-Holds}
use biefircate.Stage1.Util.{read8, subtract_bytes, compute_cksum}
use biefircate.Stage1.Acpi.{
  Tables, expect_rsdp_sig, expect_xsdt_sig, madt_sig, same_bytes, check_cksum, acpi_process_fadt,
  acpi_process_madt, process_table, process_tables, add_rsdp, acpi_init,
}
use biefircate.Stage1.Acpi.Accept.{
  IsReadable, IsRegistered, register, guarded, is_rsdp, is_xsdt, acpi_init_lem,
}

-- An RSDP of four bytes at 0, an XSDT of twelve bytes at 4 with a MADT, all with sums of 256.
abbrev small : ℕ → Tables
small flags = record {
  buf = 100 ∷ 156 ∷ 0 ∷ 0 ∷ 1 ∷ 2 ∷ 3 ∷ 250 ∷ 0 ∷ 0 ∷ 0 ∷ 0 ∷ 0 ∷ 0 ∷ 0 ∷ 0 ∷ [];
  sizeof_xsdp = 4;
  offsetof_length = 2;
  sizeof_header = 4;
  end_of_iapc_boot_flags = 4;
  rsdp_signature = λ a. expect_rsdp_sig;
  revision = λ a. 2;
  rsdp_length = λ a. 4;
  xsdt = λ a. 4;
  signature = λ a. if a == 4 then expect_xsdt_sig else madt_sig;
  table_length = λ a. 12;
  tables = λ a i. 100;
  iapc_boot_flags = λ a. 0;
  madt_flags = λ a. flags;
}

abbrev added_at : ℕ → Outcome ℕ
added_at flags = acpi_init (small flags) 0 start >>= λ s. ok s.bp_tail

runs_acpi_init : (added_at 1 ≡ ok 4096) × (added_at 2 ≡ stop Stop.error)
unfolding acpi_init same_bytes check_cksum compute_cksum subtract_bytes read8 acpi_process_fadt
    acpi_process_madt process_table process_tables add_rsdp bparm_add link fill bmem_alloc_boottime
    boottime_scan skips take_low shrink_low remove_blk
runs_acpi_init = (refl, refl)

small-IsReadable : IsReadable (small 1) 0
small-IsReadable = record {
  bytes = omega arith;
  first = omega arith;
  whole = omega arith;
  xsdt_in = omega arith;
}

acpi_init_lem_example :
    (sz : ℕ) × (acpi_init (small 1) 0 start
      ≡ guarded (is_rsdp (small 1) 0 && is_xsdt (small 1) 4) (register 0 sz start))
    × Gives (IsRegistered 0 sz []) (register 0 sz start)
acpi_init_lem_example = acpi_init_lem (small 1) 0 start [] small-IsReadable start-Holds
