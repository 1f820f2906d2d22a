-- ===== src/Stage2/Va/Init/Tests.antt =====
-- Runs of va_init's steps, and its theorems at concrete memory maps.
use biefircate.Prelude.{ℕ, ◌≤◌, ◌≡◌, refl, true, none, List, [], ◌∷◌, arith, Ends}
use biefircate.Bparams.{MemRange}
use biefircate.Stage2.Mem.Layout.{type_of}
use biefircate.Stage2.Va.Ranges.{IsSpace, is_unused}
use biefircate.Stage2.Va.Init.{
  bmem_end, prev_end_of, next_start_of, holes, uefi_attr_to_pte_flags, attr_start, attr_len,
  skip_same, va_init,
}
use biefircate.Stage2.Va.Init.Holes.{holes_lem}
use biefircate.Stage2.Va.Init.Result.{IsInitResult, va_init_lem}
use biefircate.Stage2.Mem.Alloc.{IsValid}
use biefircate.Stage2.Vm.{VaRange, State}

abbrev range : ℕ → ℕ → MemRange
range start len = record {
  start = start;
  len = len;
  e820_type = 1;
  e820_ext_attr = 1;
  uefi_attr = 8;
}

-- Low memory, extended memory that ends within a page, and memory above 4 GiB.
abbrev ranges : List MemRange
ranges = range 0x100000 0x7f00200 ∷ range 0xfee00000 0x1000 ∷ range 0x100000000 0x1000 ∷ []

runs_holes :
    holes (range 0 0x9f000) ranges
    ≡ record { start = 0x8001000; len = 0xf6dff000 }
      ∷ record { start = 0xfee01000; len = 0x11ff000 }
      ∷ []
unfolding holes prev_end_of next_start_of
runs_holes = refl

holes_lem_example :
    IsSpace (holes (range 0 0x9f000) ranges)
    × ((x : ℕ)
        → is_unused x (holes (range 0 0x9f000) ranges) ≡ true
        → (bmem_end ≤ x) × (type_of x (range 0 0x9f000 ∷ ranges) ≡ none))
holes_lem_example = holes_lem (range 0 0x9f000) ranges (omega arith)

-- A device's memory that ends within a page: its pages from the first to the last, and the next range.
abbrev device : MemRange
device = record {
  start = 0xfee00800;
  len = 0x1000;
  e820_type = 2;
  e820_ext_attr = 1;
  uefi_attr = 1;
}

runs_attributes :
    (attr_start device ≡ 0xfee00000)
    × (attr_len device ≡ 0x2000)
    × (uefi_attr_to_pte_flags device.uefi_attr ≡ 0x10)
    × (skip_same (range 0 0x1000 ∷ device ∷ range 0x100000000 0x1000 ∷ []) device.start 3 1 ≡ 2)
unfolding attr_start attr_len skip_same uefi_attr_to_pte_flags
runs_attributes = (refl, refl, refl, refl)

-- Before va_init: low memory, the ROMs, and memory that ends below a device.
abbrev boot : State
boot = record {
  mem = record {
    mem_ranges = range 0 0x9f000 ∷ range 0x100000 0x7f00200 ∷ device ∷ [];
    max_mem_ranges = 16;
  };
  pdpt = λ i. 0;
  table = λ b k. 0;
  unused_va_ranges = [];
  max_unused_va_ranges = 0;
}

boot-IsValid : IsValid boot.mem
boot-IsValid = record {
  laid_out = omega arith;
  some_range = omega arith;
  room = omega arith;
  in_word = omega arith;
}

abbrev fresh : VaRange
fresh = record { start = 0; len = 0 }

va_init_lem_example : Ends (IsInitResult boot.mem) (va_init fresh boot)
va_init_lem_example = va_init_lem fresh boot boot-IsValid (omega arith) refl (omega arith)
