-- ===== src/Stage2/Va/Tests.antt =====
-- Runs of mem_va_map and mem_va_unmap of stage 2, and their theorems at concrete inputs.
use biefircate.Prelude.{ℕ, ◌+◌, ◌/◌, ◌≡◌, refl, List, arith, ok, ◌>>=◌, Ends, Outcome}
use biefircate.Stage2.Mem.{
  mem_alloc, find_highest_range_below, halve, walk_down, mem_scan, visit, split_range, double_at,
}
use biefircate.Stage2.Vm.{
  VaRange, is_large, pt_of, pd_of, fill_pt, small_of, new_row, ensure_pt, takes_large, do_va_map,
  unmap_at, do_va_unmap,
}
use biefircate.Stage2.Vm.Tables.{leaf}
use biefircate.Stage2.Vm.Tests.{start, start-IsTables}
use biefircate.Stage2.Va.{va_scan, insert_after, give_back, mem_va_map, mem_va_unmap}
use biefircate.Stage2.Va.Ranges.{IsSpace, is_unused}
use biefircate.Stage2.Va.Map.{IsVaResult, mem_va_map_lem}
use biefircate.Stage2.Va.Unmap.{IsVaUnmapped, IsSameSpace, mem_va_unmap_lem, map_unmap_lem}

-- Some bytes across two pages above 4 GiB.
abbrev trace : Outcome (ℕ × ℕ × ℕ)
trace = mem_va_map 0x180001ff0 0x20 0 start >>= λ (va, s).
    ok (va, leaf s (va / 4096), leaf s (va / 4096 + 1))

runs_trace : trace ≡ ok (0xffffeff0, 0x180001007, 0x180002007)
unfolding mem_va_map va_scan do_va_map takes_large ensure_pt new_row fill_pt small_of is_large pt_of
    pd_of leaf mem_alloc find_highest_range_below halve walk_down mem_scan visit split_range
    double_at
runs_trace = refl

abbrev round_trip : Outcome (List VaRange)
round_trip = mem_va_map 0x180001ff0 0x20 0 start >>= λ (va, s).
    mem_va_unmap va 0x20 s >>= λ s'. ok s'.unused_va_ranges

runs_round_trip : round_trip ≡ ok start.unused_va_ranges
unfolding mem_va_map va_scan do_va_map takes_large ensure_pt new_row fill_pt small_of is_large pt_of
    pd_of mem_alloc find_highest_range_below halve walk_down mem_scan visit split_range double_at
    mem_va_unmap do_va_unmap unmap_at give_back insert_after
runs_round_trip = refl

start-IsSpace : IsSpace start.unused_va_ranges
unfolding is_unused
start-IsSpace = ((omega arith, refl, refl, omega arith), λ x h. refl, tt)

mem_va_map_lem_example :
    Ends (IsVaResult 0x180001ff0 0x20 16 start) (mem_va_map 0x180001ff0 0x20 16 start)
mem_va_map_lem_example =
    mem_va_map_lem 0x180001ff0 0x20 16 start start-IsTables start-IsSpace (omega arith)
      (omega arith) (omega arith) (omega arith)

mem_va_unmap_lem_example :
    Ends (IsVaUnmapped 0x8001ff0 0x20 start) (mem_va_unmap 0x8001ff0 0x20 start)
unfolding is_unused
mem_va_unmap_lem_example =
    mem_va_unmap_lem 0x8001ff0 0x20 start start-IsTables start-IsSpace (omega arith) (omega arith)
      (omega arith) λ x h. ground arith

map_unmap_lem_example :
    Ends
      (IsSameSpace start)
      (mem_va_map 0x180001ff0 0x20 0 start >>= λ (va, s1). mem_va_unmap va 0x20 s1)
map_unmap_lem_example =
    map_unmap_lem 0x180001ff0 0x20 0 start start-IsTables start-IsSpace (omega arith) (omega arith)
      (omega arith) (omega arith)
