-- ===== src/Stage2/Main/Tests.antt =====
-- A run of stage2_main's calls, and their theorem at concrete parameters.
use biefircate.Prelude.{◌+◌, ◌≡◌, refl, Bool, true, false, List, [], ◌∷◌, ◌++◌, if◌then◌else◌, All}
use biefircate.Bparams.{Bparm, Bdat, PciDev, bp_pcid, sizeof_pci_dev}
use biefircate.Stage2.Main.{Call, device_of, is_vga, init_call, rimg_init, hello, main_calls}
use biefircate.Stage2.Main.Calls.{count, with_image, IsCallFor, main_calls_lem}

abbrev param : PciDev → Bparm
param pd = record { type = bp_pcid; size = sizeof_pci_dev; u = Bdat.pci_dev pd }

abbrev network : PciDev
network = record {
  pci_locn = 0x18;
  pci_id = 0x100e8086;
  class_if = 0x02000000;
  rimg_seg = 0x9000;
  rimg_rt_seg = 0x9000;
  rimg_sz = 512;
}

abbrev display : PciDev
display = record {
  pci_locn = 0x10;
  pci_id = 0x11111234;
  class_if = 0x03000000;
  rimg_seg = 0xc000;
  rimg_rt_seg = 0xc000;
  rimg_sz = 1024;
}

abbrev bridge : PciDev
bridge = record {
  pci_locn = 0;
  pci_id = 0x12378086;
  class_if = 0x06000000;
  rimg_seg = 0;
  rimg_rt_seg = 0;
  rimg_sz = 0;
}

abbrev bps : List Bparm
bps = param network ∷ param bridge ∷ param display ∷ []

runs_main :
    main_calls bps 0x800 0x100 ≡ init_call display ∷ hello 0x800 0x100 ∷ init_call network ∷ []
unfolding main_calls rimg_init device_of is_vga
runs_main = refl

main_calls_lem_example :
    ((t : Call → Bool)
      → count t (main_calls bps 0x800 0x100)
        ≡ count (λ pd. t (init_call pd)) (with_image bps)
          + (if t (hello 0x800 0x100) then 1 else 0))
    × (before : List Call) × (after : List Call) × (main_calls bps 0x800 0x100
        ≡ before ++ hello 0x800 0x100 ∷ after)
    × All (IsCallFor true) before
    × All (IsCallFor false) after
main_calls_lem_example = main_calls_lem bps 0x800 0x100
