-- ===== src/Stage1/Acpi.antt =====
-- stage1/acpi.c: the checks of the ACPI tables, and the boot parameter for the RSDP. The tables' layout,
-- that of a header outside the repository, is a parameter.
pub mod Accept
mod Tests
use biefircate.Prelude.{
  ℕ, zero, suc, ◌+◌, ◌-◌, ◌*◌, ◌/◌, bit_and, Bool, true, false, ◌&&◌, List, [], ◌∷◌, leb, ◌==◌,
  ◌!=◌, if◌then◌else◌, Outcome, ok, stop, Stop, require, ◌>>=◌, ◌>>◌,
}
use biefircate.Bparams.{Bdat, bp_rsdp, sizeof_rsdp}
use biefircate.Stage1.Bparm.{State, fill, bparm_add}
use biefircate.Stage1.Util.{compute_cksum}

-- Memory, and the fields of the tables by the addresses of the tables.
pub record Tables : Type 0 where
  pub buf : List ℕ
  pub sizeof_xsdp : ℕ
  pub offsetof_length : ℕ
  pub sizeof_header : ℕ
  pub end_of_iapc_boot_flags : ℕ
  pub rsdp_signature : ℕ → List ℕ
  pub revision : ℕ → ℕ
  pub rsdp_length : ℕ → ℕ
  pub xsdt : ℕ → ℕ
  pub signature : ℕ → List ℕ
  pub table_length : ℕ → ℕ
  pub tables : ℕ → ℕ → ℕ
  pub iapc_boot_flags : ℕ → ℕ
  pub madt_flags : ℕ → ℕ

abbrev pub expect_rsdp_sig : List ℕ
expect_rsdp_sig = b'R' ∷ b'S' ∷ b'D' ∷ b' ' ∷ b'P' ∷ b'T' ∷ b'R' ∷ b' ' ∷ []

abbrev pub expect_xsdt_sig : List ℕ
expect_xsdt_sig = b'X' ∷ b'S' ∷ b'D' ∷ b'T' ∷ []

abbrev pub fadt_sig : List ℕ
fadt_sig = b'F' ∷ b'A' ∷ b'C' ∷ b'P' ∷ []

abbrev pub madt_sig : List ℕ
madt_sig = b'A' ∷ b'P' ∷ b'I' ∷ b'C' ∷ []

abbrev pub fadt_iapc_nortc : ℕ
fadt_iapc_nortc = 32

abbrev pub madt_pcat_compat : ℕ
madt_pcat_compat = 1

-- `memcmp(.) == 0`, for a signature and a constant of its size.
unfoldable pub same_bytes : List ℕ → List ℕ → Bool
same_bytes [] [] = true
same_bytes [] (c ∷ cs) = false
same_bytes (b ∷ bs) [] = false
same_bytes (b ∷ bs) (c ∷ cs) = (b == c) && same_bytes bs cs

-- `if (compute_cksum(p, n) != 0) error(...)`.
unfoldable pub check_cksum : List ℕ → ℕ → ℕ → Outcome (Unit {0})
check_cksum buf p n = compute_cksum buf p n >>= λ c. require (c == 0) Stop.error

-- `acpi_process_fadt(fadt)`. The warning about VGA hardware changes nothing.
unfoldable pub acpi_process_fadt : Tables → ℕ → Outcome (Unit {0})
acpi_process_fadt T fadt =
    require (leb T.end_of_iapc_boot_flags (T.table_length fadt)) Stop.error
    >> require (bit_and (T.iapc_boot_flags fadt) fadt_iapc_nortc == 0) Stop.error

-- `acpi_process_madt(madt)`.
unfoldable pub acpi_process_madt : Tables → ℕ → Outcome (Unit {0})
acpi_process_madt T madt = require (bit_and (T.madt_flags madt) madt_pcat_compat != 0) Stop.error

-- The loop over the tables, with `left` to come, and its body.
unfoldable pub process_table : Tables → ℕ → Outcome (Unit {0})
process_table T tab =
    if same_bytes (T.signature tab) fadt_sig
    then acpi_process_fadt T tab
    else if same_bytes (T.signature tab) madt_sig
    then acpi_process_madt T tab
    else ok tt

unfoldable pub process_tables : Tables → ℕ → ℕ → ℕ → Outcome (Unit {0})
process_tables T xsdt zero i = ok tt
process_tables T xsdt (suc left) i =
    process_table T (T.tables xsdt i) >> process_tables T xsdt left (i + 1)

abbrev pub num_tabs : Tables → ℕ → ℕ
num_tabs T xsdt = (T.table_length xsdt - T.sizeof_header) / 8

-- The parameter for the RSDP: its size is what `sz` holds by then, the length of the XSDT.
unfoldable pub add_rsdp : Tables → ℕ → State → Outcome State
add_rsdp T rsdp s = bparm_add bp_rsdp sizeof_rsdp s >>= λ (bd_rsdp, s'). ok (
    fill bd_rsdp
      (Bdat.rsdp (record { rsdp_phy_addr = rsdp; rsdp_sz = T.table_length (T.xsdt rsdp) })) s')

-- `acpi_init(rsdp)`.
unfoldable pub acpi_init : Tables → ℕ → State → Outcome State
acpi_init T rsdp s =
    require (same_bytes (T.rsdp_signature rsdp) expect_rsdp_sig) Stop.error
    >> (require (leb 2 (T.revision rsdp)) Stop.error
        >> (require (leb T.sizeof_xsdp (T.rsdp_length rsdp)) Stop.error
            >> (check_cksum T.buf rsdp T.offsetof_length
                >> (check_cksum T.buf rsdp (T.rsdp_length rsdp)
                    >> (require (same_bytes (T.signature (T.xsdt rsdp)) expect_xsdt_sig) Stop.error
                        >> (require (leb (T.sizeof_header + 8) (T.table_length (T.xsdt rsdp)))
                              Stop.error
                            >> (check_cksum T.buf (T.xsdt rsdp) (T.table_length (T.xsdt rsdp))
                                >> (process_tables T (T.xsdt rsdp) (num_tabs T (T.xsdt rsdp)) 0
                                    >> add_rsdp T rsdp s))))))))
