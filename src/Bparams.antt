-- ===== src/Bparams.antt =====
-- bparm.h and common.h: the boot parameters that stage 1 passes to stage 2.
use biefircate.Prelude.{ℕ, ◌*◌, ◌^◌, bit_or}

-- MAGIC32(a, b, c, d).
abbrev pub magic32 : ℕ → ℕ → ℕ → ℕ → ℕ
magic32 a b c d = bit_or a (bit_or (b * 2 ^ 8) (bit_or (c * 2 ^ 16) (d * 2 ^ 24)))

abbrev pub bp_pcid : ℕ
bp_pcid = magic32 b'P' b'C' b'I' b'D'

abbrev pub bp_bmem : ℕ
bp_bmem = magic32 b'B' b'M' b'E' b'M'

abbrev pub bp_mrng : ℕ
bp_mrng = magic32 b'M' b'R' b'N' b'G'

abbrev pub bp_rsdp : ℕ
bp_rsdp = magic32 b'R' b'S' b'D' b'P'

-- `bdat_pci_dev_t`.
pub record PciDev : Type 0 where
  pub pci_locn : ℕ
  pub pci_id : ℕ
  pub class_if : ℕ
  pub rimg_seg : ℕ
  pub rimg_rt_seg : ℕ
  pub rimg_sz : ℕ

-- `bdat_bmem_t`.
pub record BmemInfo : Type 0 where
  pub boottime_bmem_bot_seg : ℕ
  pub runtime_bmem_top_seg : ℕ

-- `bdat_mem_range_t`.
pub record MemRange : Type 0 where
  pub start : ℕ
  pub len : ℕ
  pub e820_type : ℕ
  pub e820_ext_attr : ℕ
  pub uefi_attr : ℕ

-- `bdat_rsdp_t`.
pub record RsdpInfo : Type 0 where
  pub rsdp_phy_addr : ℕ
  pub rsdp_sz : ℕ

-- The union `u` of a node; `blank` is the zeroed area before its owner fills it.
pub data Bdat : Type 0 where
  blank : Bdat
  pci_dev : PciDev → Bdat
  bmem : BmemInfo → Bdat
  mem_range : MemRange → Bdat
  rsdp : RsdpInfo → Bdat

-- `struct bparm`, less its `next`.
pub record Bparm : Type 0 where
  pub type : ℕ
  pub size : ℕ
  pub u : Bdat

-- sizeof of the four structures.
abbrev pub sizeof_pci_dev : ℕ
sizeof_pci_dev = 20

abbrev pub sizeof_bmem : ℕ
sizeof_bmem = 4

abbrev pub sizeof_mem_range : ℕ
sizeof_mem_range = 32

abbrev pub sizeof_rsdp : ℕ
sizeof_rsdp = 12

-- E820_RAM and the other address range types.
abbrev pub e820_ram : ℕ
e820_ram = 1

abbrev pub e820_reserved : ℕ
e820_reserved = 2

abbrev pub e820_acpi : ℕ
e820_acpi = 3

abbrev pub e820_nvs : ℕ
e820_nvs = 4

abbrev pub e820_pmem : ℕ
e820_pmem = 7
