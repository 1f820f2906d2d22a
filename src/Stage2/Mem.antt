-- ===== src/Stage2/Mem.antt =====
-- stage2/mem.c: the memory map of stage 2, its sorting and the allocation of physical memory. A
-- `mem_range_t` has the five fields of a `bdat_mem_range_t` and is the same record here. The part of
-- `mem_ranges` in use is a list, so `num_mem_ranges` is its length.
pub mod Sort
pub mod Layout
pub mod Search
pub mod Alloc
pub mod Room
pub mod Ends
pub mod Grows
pub mod Map
mod Tests
use biefircate.Prelude.{
  ℕ, zero, suc, ◌+◌, ◌-◌, ◌*◌, ◌/◌, ◌^◌, ◌%◌, bit_and, Bool, true, false, ◌&&◌, ◌||◌, Option, none,
  some, List, [], ◌∷◌, ltb, leb, ◌==◌, ◌!=◌, if◌then◌else◌, length, get_or, set, Outcome, ok, stop,
  Stop, ◌>>=◌,
}
use biefircate.Prelude.Words.{u32, u64, sub_w, neg_w}
use biefircate.Bparams.{MemRange, e820_ram, e820_reserved}

pub record State : Type 0 where
  pub mem_ranges : List MemRange
  pub max_mem_ranges : ℕ

-- XM32_MAX_ADDR.
abbrev pub xm32_max_addr : ℕ
xm32_max_addr = 0x100000000

abbrev pub no_range : MemRange
no_range = record { start = 0; len = 0; e820_type = 0; e820_ext_attr = 0; uefi_attr = 0 }

abbrev pub range_at : List MemRange → ℕ → MemRange
range_at mrs i = get_or mrs i no_range

-- The innermost loop of `shellsort`, from index `j`: where it leaves `j`, and the array. As `h` is
-- at least 1, it runs at most `j` rounds; with no round left `j` is 0 and the loop ends.
unfoldable pub shift_up : ℕ → ℕ → MemRange → ℕ → List MemRange → ℕ × List MemRange
shift_up zero h v j mrs = (j, mrs)
shift_up (suc rounds) h v j mrs =
    let rest = shift_up rounds h v (j - h) (set mrs j (range_at mrs (j - h))) in
    if leb h j && ltb v.start (range_at mrs (j - h)).start then rest else (j, mrs)

-- One round of the loop on `i`.
unfoldable pub insert : ℕ → ℕ → List MemRange → List MemRange
insert h i mrs =
    let v = range_at mrs i in let (j, shifted) = shift_up i h v i mrs in set shifted j v

-- The loop on `i`, with `left` rounds left.
unfoldable pub insertions : ℕ → ℕ → ℕ → List MemRange → List MemRange
insertions zero h i mrs = mrs
insertions (suc left) h i mrs = insertions left h (i + 1) (insert h i mrs)

-- The loop on `h`. Its test stands at its end, but `h` is not 0 before it. Each round halves the
-- 32-bit `h`, so 32 rounds are enough.
unfoldable pub passes : ℕ → ℕ → List MemRange → List MemRange
passes zero h mrs = mrs
passes (suc rounds) h mrs =
    let rest = passes rounds (h / 2) (insertions (length mrs - h) h h mrs) in
    if h == 0 then mrs else rest

-- `while (h < nmr) h *= 2;`.
unfoldable pub double : ℕ → ℕ → ℕ → Outcome ℕ
double zero nmr h = if ltb h nmr then stop Stop.out_of_fuel else ok h
double (suc rounds) nmr h =
    let rest = double rounds nmr (u32 (h * 2)) in if ltb h nmr then rest else ok h

-- `shellsort(mrs, nmr)`.
unfoldable pub shellsort : List MemRange → Outcome (List MemRange)
shellsort mrs =
    if ltb (length mrs) 2
    then ok mrs
    else double 32 (length mrs) 1 >>= λ h. ok (passes 32 (sub_w 32 h 1) mrs)

-- `mr->start + mr->len - 1 > max_addr - 1`.
abbrev pub is_above : ℕ → MemRange → Bool
is_above max_addr mr = ltb (sub_w 64 max_addr 1) (sub_w 64 (u64 (mr.start + mr.len)) 1)

-- The first loop of `find_highest_range_below`, where it leaves `left`.
unfoldable pub halve : ℕ → ℕ → List MemRange → ℕ → ℕ → Outcome ℕ
halve zero max_addr mrs left right =
    if ltb left (sub_w 32 right 1) then stop Stop.out_of_fuel else ok left
halve (suc rounds) max_addr mrs left right =
    let mid = u32 (left + right) / 2 in
    let high = is_above max_addr (range_at mrs mid) in
    let rest =
      halve rounds max_addr mrs (if high then left else mid) (if high then mid else right) in
    if ltb left (sub_w 32 right 1) then rest else ok left

-- Its second loop, from index `left` down.
unfoldable pub walk_down : ℕ → List MemRange → ℕ → Outcome ℕ
walk_down max_addr mrs zero = if is_above max_addr (range_at mrs 0) then stop Stop.hlt else ok 0
walk_down max_addr mrs (suc left) =
    let rest = walk_down max_addr mrs left in
    if is_above max_addr (range_at mrs (suc left)) then rest else ok (suc left)

-- `find_highest_range_below(max_addr)`, as an index into `mem_ranges`.
unfoldable pub find_highest_range_below : List MemRange → ℕ → Outcome ℕ
find_highest_range_below mrs max_addr =
    halve (length mrs) max_addr mrs 0 (length mrs) >>= walk_down max_addr mrs

-- The ranges from index `i` on move up one place, and the one at `i` stays too.
unfoldable pub double_at : List MemRange → ℕ → List MemRange
double_at [] i = []
double_at (mr ∷ mrs) zero = mr ∷ mr ∷ mrs
double_at (mr ∷ mrs) (suc i) = mr ∷ double_at mrs i

-- The two halves of a range that is split.
abbrev pub lower_half : MemRange → ℕ → ℕ → MemRange
lower_half mr split_point below = record mr {
  len = sub_w 64 split_point mr.start;
  e820_type = below;
}

abbrev pub upper_half : MemRange → ℕ → ℕ → MemRange
upper_half mr split_point above = record mr {
  start = split_point;
  len = sub_w 64 mr.len (sub_w 64 split_point mr.start);
  e820_type = above;
}

-- `split_range(&mem_ranges[i], split_point, e820_type_below, e820_type_above)`.
unfoldable pub split_range : State → ℕ → ℕ → ℕ → ℕ → Outcome State
split_range s i split_point below above =
    let mrs = s.mem_ranges in
    let mr = range_at mrs i in
    if mr.start == split_point
    then ok (record s { mem_ranges = set mrs i (record mr { e820_type = above }) })
    else if u64 (mr.start + mr.len) == split_point
    then ok (record s { mem_ranges = set mrs i (record mr { e820_type = below }) })
    else if leb s.max_mem_ranges (length mrs)
    then stop Stop.hlt
    else ok (record s {
      mem_ranges =
          set (set (double_at mrs i) i (lower_half mr split_point below)) (suc i)
            (upper_half mr split_point above);
    })

-- What a round of the loop of `mem_alloc` does: goes on to the range below, takes an address, or
-- halts.
pub data Visit : Type 0 where
  go_on give_up : Visit
  take_at : ℕ → Visit

abbrev pub mem_astart : ℕ → ℕ → MemRange → ℕ
mem_astart sz align mr = bit_and (sub_w 32 (u32 (mr.start + mr.len)) sz) (neg_w 32 align)

unfoldable pub visit : ℕ → ℕ → MemRange → Visit
visit sz align mr =
    if mr.e820_type != e820_ram || ltb mr.len sz
    then Visit.go_on
    else let astart = mem_astart sz align mr in
      if leb mr.start astart
      then Visit.take_at astart
      else if mr.start == 0
      then Visit.give_up
      else Visit.go_on

-- The loop from index `i` down: the index and the address that it stops at. It may leave the array
-- at its lower end.
unfoldable pub mem_scan : ℕ → ℕ → List MemRange → ℕ → Outcome (ℕ × ℕ)
mem_scan sz align mrs zero = elim (visit sz align (range_at mrs 0)) [
  | go_on ↦ stop Stop.fault
  | give_up ↦ stop Stop.hlt
  | take_at astart ↦ ok (0, astart)
]
mem_scan sz align mrs (suc i) =
    let rest = mem_scan sz align mrs i in
    elim (visit sz align (range_at mrs (suc i))) [
      | go_on ↦ rest
      | give_up ↦ stop Stop.hlt
      | take_at astart ↦ ok (suc i, astart)
    ]

-- `max_addr64`.
abbrev pub limit : ℕ → ℕ
limit max_addr = if max_addr == 0 then xm32_max_addr else max_addr

-- `mem_alloc(sz, align, max_addr)`.
unfoldable pub mem_alloc : State → ℕ → ℕ → ℕ → Outcome (ℕ × State)
mem_alloc s sz align max_addr =
    if sz == 0
    then ok (0, s)
    else if ltb (limit max_addr) sz
    then stop Stop.hlt
    else find_highest_range_below s.mem_ranges (limit max_addr) >>= λ top.
        mem_scan sz align s.mem_ranges top >>= λ (i, astart).
        split_range s i astart e820_ram e820_reserved >>= λ s'. ok (astart, s')
