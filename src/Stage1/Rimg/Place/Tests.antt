-- ===== src/Stage1/Rimg/Place/Tests.antt =====
-- A run of get_rimg of stage 1, and its theorem at a concrete image.
use biefircate.Prelude.{
  ℕ, ◌+◌, ◌*◌, ◌%◌, ◌≡◌, refl, some, [], ◌∷◌, arith, Outcome, ok, ◌>>=◌, Gives,
}
use biefircate.Bparams.{PciDev}
use biefircate.Stage1.Bmem.{
  alloc_scan, boottime_scan, skips, take_low, shrink_low, bmem_alloc, bmem_alloc_boottime,
}
use biefircate.Stage1.Rimg.Place.{
  Pcir, State, memcpy, is_in_place, place_image, get_shrinking, is_shrinking, get_rimg,
}
use biefircate.Stage1.Bmem.Alloc.{IsValid}
use biefircate.Stage1.Rimg.Place.Copy.{IsGetResult, run_time_size, get_rimg_lem}

-- Each address above 16 MiB holds the last byte of its offset from there.
abbrev start : State
start = record {
  bmem = record {
    blk = record { start = 4096; end = 0x9fc00; orig_end = 0x9fc00 } ∷ [];
    boottime_bmem_bot = 4096;
    runtime_bmem_top = 0x9fc00;
    bmem_uefi_attr = 9;
  };
  byte = λ x. x % 256;
}

start-IsValid : IsValid start.bmem
start-IsValid = record { laid_out = omega arith; top_in = omega arith; bot_in = omega arith }

abbrev device : PciDev
device = record {
  pci_locn = 0x10;
  pci_id = 0x12348086;
  class_if = 0x03000000;
  rimg_seg = 0;
  rimg_rt_seg = 0;
  rimg_sz = 0;
}

abbrev pcir : Pcir
pcir = record { pcir_rev = 3; max_rt_sz_hkib = 4 }

abbrev got : Outcome (ℕ × ℕ × ℕ)
got = get_rimg device 0x1000005 1024 (some pcir) start >>= λ (bd, s).
    ok (bd.rimg_seg, bd.rimg_rt_seg, s.byte (bd.rimg_seg * 16 + 3))

runs_get : got ≡ ok (0x100, 0x9f40, 8)
unfolding get_rimg is_shrinking get_shrinking place_image is_in_place memcpy bmem_alloc
    bmem_alloc_boottime alloc_scan boottime_scan skips take_low shrink_low
runs_get = refl

get_rimg_lem_example :
    Gives
      (IsGetResult start 0x1000005 1024 (run_time_size 1024 pcir))
      (get_rimg device 0x1000005 1024 (some pcir) start)
get_rimg_lem_example = get_rimg_lem device 0x1000005 1024 pcir start start-IsValid (omega arith)
