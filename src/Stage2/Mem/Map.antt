-- ===== src/Stage2/Mem/Map.antt =====
-- mem_map_init of stage2/mem.c: the memory map of stage 2 from the boot parameters, which are the
-- list of their nodes here. A node of the type BP_MRNG holds a `bdat_mem_range_t`.
pub mod Choose
pub mod Carve
use biefircate.Prelude.{
  ℕ, zero, suc, ◌+◌, ◌-◌, ◌*◌, ◌/◌, ◌^◌, ◌%◌, Bool, true, false, ◌&&◌, Option, none, some, List, [],
  ◌∷◌, ◌++◌, ltb, leb, ◌==◌, ◌!=◌, if◌then◌else◌, Outcome, ok, stop, Stop, ◌>>=◌,
}
use biefircate.Prelude.Words.{u32, u64, sub_w}
use biefircate.Bparams.{Bdat, Bparm, MemRange, bp_mrng, sizeof_mem_range, e820_ram, e820_reserved}
use biefircate.Stage2.Mem.{State, xm32_max_addr, shellsort}

-- `&bp->u->mem_range`, for a node of the type BP_MRNG.
unfoldable pub mrng : Bparm → Option MemRange
mrng bp = if bp.type == bp_mrng then elim bp.u [ Bdat.mem_range r ↦ some r | _ ↦ none ] else none

-- The ranges that the nodes hold.
unfoldable pub ranges_of : List Bparm → List MemRange
ranges_of [] = []
ranges_of (bp ∷ bps) = elim (mrng bp) [ none ↦ ranges_of bps | some r ↦ r ∷ ranges_of bps ]

-- The first loop, on from a count.
unfoldable pub count_ranges : List Bparm → ℕ → ℕ
count_ranges [] mmr = mmr
count_ranges (bp ∷ bps) mmr = elim (mrng bp) [
  | none ↦ count_ranges bps mmr
  | some r ↦ count_ranges bps (if r.len != 0 then u32 (mmr + 1) else mmr)
]

-- `mmr` as the array is to have it.
unfoldable pub array_size : List Bparm → ℕ
array_size bps = let mmr = u32 (3 * count_ranges bps 1 + 1) / 2 in if ltb mmr 16 then 16 else mmr

-- `e820_need_space`; a `mem_range_t` has the size of a `bdat_mem_range_t`.
abbrev pub need_space : List Bparm → ℕ
need_space bps = u32 (array_size bps * sizeof_mem_range)

-- The test of the second loop.
unfoldable pub is_suitable : ℕ → MemRange → Bool
is_suitable need r =
    r.e820_type == e820_ram
    && (ltb r.start xm32_max_addr && (leb r.len (xm32_max_addr - r.start) && leb need r.len))

-- `!bdmr_chosen || start > bdmr_chosen->start`.
abbrev pub is_better : MemRange → Option (ℕ × MemRange) → Bool
is_better r none = true
is_better r (some (c, best)) = ltb best.start r.start

-- The second loop from node `i` on: the node chosen, and its range.
unfoldable pub choose : ℕ → List Bparm → ℕ → Option (ℕ × MemRange) → Option (ℕ × MemRange)
choose need [] i chosen = chosen
choose need (bp ∷ bps) i chosen = elim (mrng bp) [
  | none ↦ choose need bps (i + 1) chosen
  | some r ↦
      choose need bps (i + 1)
        (if is_suitable need r && is_better r chosen then some (i, r) else chosen)
]

-- What the third loop writes for the chosen range: what is left of it, and the map's own space.
unfoldable pub carve : ℕ → ℕ → MemRange → List MemRange
carve mrs need r =
    let left = sub_w 64 r.len need in
    let own = record r { start = mrs; len = need; e820_type = e820_reserved } in
    if left != 0 then record r { len = left } ∷ own ∷ [] else own ∷ []

-- The third loop from node `i` on.
unfoldable pub copy : ℕ → ℕ → ℕ → List Bparm → ℕ → List MemRange
copy mrs need c [] i = []
copy mrs need c (bp ∷ bps) i =
    let rest = copy mrs need c bps (i + 1) in
    elim (mrng bp) [
      | none ↦ rest
      | some r ↦ if r.len == 0 then rest else if i == c then carve mrs need r ++ rest else r ∷ rest
    ]

-- `mem_map_init(bparms)`.
unfoldable pub mem_map_init : List Bparm → Outcome State
mem_map_init bps = elim (choose (need_space bps) bps 0 none) [
  | none ↦ stop Stop.hlt
  | some (c, r) ↦
      shellsort
        (copy (u32 (sub_w 64 (u64 (r.start + r.len)) (need_space bps))) (need_space bps) c bps 0)
      >>= λ sorted. ok (record { mem_ranges = sorted; max_mem_ranges = array_size bps })
]
