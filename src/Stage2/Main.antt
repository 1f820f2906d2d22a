-- ===== src/Stage2/Main.antt =====
-- stage2/main.c: the order in which the option ROM images are initialized. Real mode code runs through
-- rm16_call, of which only the arguments are modelled; it does not write the boot parameters.
pub mod Calls
mod Tests
use biefircate.Prelude.{
  ℕ, ◌*◌, ◌^◌, ◌%◌, bit_and, bit_or, Bool, true, false, not, ◌&&◌, ◌||◌, Option, none, some, List,
  [], ◌∷◌, ◌++◌, ◌==◌, ◌!=◌, if◌then◌else◌,
}
use biefircate.Bparams.{Bparm, Bdat, PciDev, bp_pcid}

-- The arguments of `rm16_call`.
pub record Call : Type 0 where
  pub eax : ℕ
  pub edx : ℕ
  pub ecx : ℕ
  pub ebx : ℕ
  pub callee : ℕ

-- `MK_FP16(seg, off)`.
abbrev pub mk_fp16 : ℕ → ℕ → ℕ
mk_fp16 seg off = bit_or (seg * 2 ^ 16 % 2 ^ 32) off

-- The device of a parameter, if it has one.
unfoldable pub device_of : Bparm → Option PciDev
device_of bp =
    if bp.type == bp_pcid
    then (elim bp.u [
      | Bdat.blank ↦ none
      | Bdat.pci_dev pd ↦ some pd
      | Bdat.bmem b ↦ none
      | Bdat.mem_range r ↦ none
      | Bdat.rsdp r ↦ none
    ])
    else none

-- The switch on the class: VGA or XGA.
unfoldable pub is_vga : PciDev → Bool
is_vga pd =
    (bit_and pd.class_if 0xffff0000 == 0x03000000) || (bit_and pd.class_if 0xffff0000 == 0x03010000)

abbrev pub do_init : Bool → PciDev → Bool
do_init init_vga pd = if is_vga pd then init_vga else not init_vga

abbrev pub init_call : PciDev → Call
init_call pd = record {
  eax = pd.pci_locn;
  edx = 0;
  ecx = 0;
  ebx = pd.rimg_rt_seg;
  callee = mk_fp16 pd.rimg_seg 0x0003;
}

-- `rimg_init(bparms, init_vga)`: the calls that it makes.
unfoldable pub rimg_init : List Bparm → Bool → List Call
rimg_init [] init_vga = []
rimg_init (bp ∷ bps) init_vga =
    let rest = rimg_init bps init_vga in
    elim (device_of bp) [
      | none ↦ rest
      | some pd ↦
          if not (do_init init_vga pd)
          then rest
          else if pd.rimg_seg == 0
          then rest
          else init_call pd ∷ rest
    ]

-- `hello()`, with the segment of the 16-bit code and the offset of `hello16` in it.
abbrev pub hello : ℕ → ℕ → Call
hello rm16_cs hello16 = record {
  eax = 0;
  edx = 0;
  ecx = 0;
  ebx = 0;
  callee = mk_fp16 rm16_cs hello16;
}

-- The calls of `stage2_main`, after it has set up memory and interrupts.
unfoldable pub main_calls : List Bparm → ℕ → ℕ → List Call
main_calls bps rm16_cs hello16 = rimg_init bps true ++ hello rm16_cs hello16 ∷ rimg_init bps false
