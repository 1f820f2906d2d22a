-- ===== src/Stage2/Vm/Tests.antt =====
-- Runs of the paging code of stage 2, and its theorems at concrete inputs.
use biefircate.Prelude.{
  ℕ, zero, suc, ◌+◌, ◌*◌, ◌/◌, ◌%◌, ◌<◌, ◌≡◌, refl, [], ◌∷◌, arith, ok, ◌>>=◌, Ends, Outcome,
}
use biefircate.Bparams.{MemRange}
use biefircate.Stage2.Mem.Layout.{type_of}
use biefircate.Stage2.Mem.Alloc.{IsValid}
use biefircate.Stage2.Mem.{
  mem_alloc, find_highest_range_below, halve, walk_down, mem_scan, visit, split_range, double_at,
}
use biefircate.Stage2.Vm.{
  VaRange, State, is_large, pt_of, pd_of, fill_pt, small_of, new_row, ensure_pt, takes_large,
  do_va_map, unmap_at, do_va_unmap,
}
use biefircate.Stage2.Vm.Tables.{leaf, IsTaken, IsTables}
use biefircate.Stage2.Vm.Ensure.{IsEnsured, ensure_pt_lem}
use biefircate.Stage2.Vm.Map.{IsMapResult, do_va_map_lem}
use biefircate.Stage2.Vm.Unmap.{IsUnmapped, do_va_unmap_lem}

abbrev range : ℕ → ℕ → ℕ → MemRange
range start len type = record {
  start = start;
  len = len;
  e820_type = type;
  e820_ext_attr = 1;
  uefi_attr = 8;
}

abbrev gap : VaRange
gap = record { start = 0x8004000; len = 0xf7ffc000 }

-- Four empty page directories at the top of the memory.
abbrev pub start : State
start = record {
  mem = record {
    mem_ranges =
        range 0 0x9f000 1
        ∷ range 0xf0000 0x10000 2
        ∷ range 0x100000 0x7f00000 1
        ∷ range 0x8000000 0x4000 2
        ∷ [];
    max_mem_ranges = 16;
  };
  pdpt = λ i. 0x8000001 + i * 0x1000;
  table = λ b k. 0;
  unused_va_ranges = gap ∷ [];
  max_unused_va_ranges = 16;
}

start-IsValid : IsValid start.mem
start-IsValid = record {
  laid_out = omega arith;
  some_range = omega arith;
  room = omega arith;
  in_word = omega arith;
}

start-pd_of : (i : ℕ) → i < 4 → pd_of start i ≡ 0x8000000 + i * 0x1000
unfolding pd_of
start-pd_of zero l = refl
start-pd_of (suc zero) l = refl
start-pd_of (suc (suc zero)) l = refl
start-pd_of (suc (suc (suc zero))) l = refl
start-pd_of (suc (suc (suc (suc i)))) l = absurd (omega arith)

start-IsTaken : (i : ℕ) → i < 4 → IsTaken start (pd_of start i)
unfolding pd_of type_of
start-IsTaken zero l = refl
start-IsTaken (suc zero) l = refl
start-IsTaken (suc (suc zero)) l = refl
start-IsTaken (suc (suc (suc zero))) l = refl
start-IsTaken (suc (suc (suc (suc i)))) l = absurd (omega arith)

pub start-IsTables : IsTables start
start-IsTables = record {
  valid = start-IsValid;
  pd_taken = start-IsTaken;
  pd_ne = λ i j l m ne e. omega (arith, start-pd_of i l, start-pd_of j m);
  pt_taken = λ n l h. cc;
  pt_pd = λ n i l m h. cc;
  pt_ne = λ m n l k ne h g. cc;
}

-- A large page is split when one of its small pages is mapped elsewhere, and unmapped.
abbrev trace : Outcome (ℕ × ℕ × ℕ × ℕ)
trace = do_va_map 1024 0x40000000 0x200000 0x200000 0 start >>= λ s.
    do_va_map 1024 0x40001000 0x123000 0x1000 8 s >>= λ s'.
    do_va_unmap 1024 0x40002000 0x1000 s' >>= λ s''.
    ok (leaf s 0x40001, leaf s' 0x40001, leaf s' 0x40002, leaf s'' 0x40002)

runs_trace : trace ≡ ok (0x201007, 0x12300f, 0x202007, 0)
unfolding do_va_map takes_large ensure_pt new_row fill_pt small_of is_large pt_of pd_of do_va_unmap
    unmap_at leaf mem_alloc find_highest_range_below halve walk_down mem_scan visit split_range
    double_at
runs_trace = refl

ensure_pt_lem_example :
    Ends
      (IsEnsured start start-IsTables 3 (omega arith))
      (ensure_pt start (pd_of start (3 / 512)) (3 % 512))
ensure_pt_lem_example = ensure_pt_lem start start-IsTables 3 (omega arith)

do_va_map_lem_example :
    Ends
      (IsMapResult 0x40000 0x200 513 8 start)
      (do_va_map 1024 (0x40000 * 4096) (0x200 * 4096) (513 * 4096) 8 start)
do_va_map_lem_example =
    do_va_map_lem 1024 0x40000 0x200 513 8 start start-IsTables (omega arith) (omega arith)
      (omega arith) (omega arith)

do_va_unmap_lem_example :
    (s' : State) × (do_va_unmap 16 (0x40000 * 4096) (3 * 4096) start ≡ ok s')
    × IsUnmapped 0x40000 3 start s'
do_va_unmap_lem_example =
    do_va_unmap_lem 16 0x40000 3 start start-IsTables (omega arith) (omega arith)
