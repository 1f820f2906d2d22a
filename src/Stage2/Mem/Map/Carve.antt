-- ===== src/Stage2/Mem/Map/Carve.antt =====
-- What mem_map_init of stage2/mem.c puts into the memory map.
use biefircate.Prelude.{
  ℕ, suc, ◌+◌, ◌-◌, ◌*◌, ◌^◌, ◌≤◌, ◌<◌, ◌≡◌, inl, inr, refl, Bool, true, false, ◌&&◌, none, some,
  List, [], ◌∷◌, ◌++◌, arith, length, length-append, ltb, leb, ◌==◌, ◌!=◌, if◌then◌else◌,
  Bool-cases, Option-cases, ok,
}
use biefircate.Prelude.Words.{u32, u64, sub_w}
use biefircate.Bparams.{Bparm, MemRange, e820_ram, e820_reserved}
use biefircate.Stage2.Mem.{State, xm32_max_addr, shellsort}
use biefircate.Stage2.Mem.Sort.{count, IsInOrder, shellsort_lem}
use biefircate.Stage2.Mem.Map.{
  mrng, ranges_of, count_ranges, array_size, need_space, is_suitable, choose, carve, copy,
  mem_map_init,
}
use biefircate.Stage2.Mem.Map.Choose.{
  IsAt, ranges_of-none, ranges_of-some, copy-none, copy-some, count_ranges-none, count_ranges-some,
  choose_found, choose-ok,
}

-- A range has an address, and a type.
abbrev pub covers : ℕ → ℕ → MemRange → Bool
covers x type r = leb r.start x && (ltb x (r.start + r.len) && (r.e820_type == type))

-- 1 for an address of a block, and 0 for any other.
abbrev pub in_block : ℕ → ℕ → ℕ → ℕ
in_block x start len = if leb start x && ltb x (start + len) then 1 else 0

count-append :
    (t : MemRange → Bool) (xs ys : List MemRange) → count t (xs ++ ys) ≡ count t xs + count t ys
unfolding count
count-append t [] ys = omega arith
count-append t (x ∷ xs) ys = omega (arith, count-append t xs ys)

-- The chosen range is replaced by ranges that cover the same addresses, with those of the map's own
-- space reserved.
carve_lem :
    (x type mrs need : ℕ) (r : MemRange)
    → is_suitable need r ≡ true
    → 0 < need
    → mrs ≡ r.start + r.len - need
    → count (covers x type) (carve mrs need r)
        + (if type == e820_ram then in_block x mrs need else 0)
      ≡ (if covers x type r then 1 else 0)
        + (if type == e820_reserved then in_block x mrs need else 0)
unfolding count carve is_suitable
carve_lem x type mrs need r good pos e = elim (Bool-cases (r.len == need)) [
  | inl all ↦ let left : (sub_w 64 r.len need != 0) ≡ false = ground arith in rw left (ground arith)
  | inr more ↦
      let left : (sub_w 64 r.len need != 0) ≡ true = ground arith in
      let size : sub_w 64 r.len need ≡ r.len - need = ground arith in rw (left, size) (ground arith)
]

covers-empty : (x type : ℕ) (r : MemRange) → (r.len == 0) ≡ true → covers x type r ≡ false
covers-empty x type r e = ground arith

-- Behind the chosen node the ranges are copied as they are.
copy-after :
    (x type mrs need c : ℕ) (bps : List Bparm) (i : ℕ)
    → c < i
    → count (covers x type) (copy mrs need c bps i) ≡ count (covers x type) (ranges_of bps)
unfolding count copy ranges_of
copy-after x type mrs need c [] i lt = refl
copy-after x type mrs need c (bp ∷ bps) i lt =
    let rest = copy-after x type mrs need c bps (i + 1) (omega arith) in
    elim (Option-cases (mrng bp)) [
      | inl e ↦ rw (copy-none bp bps mrs need c i e, ranges_of-none bp bps e) rest
      | inr (r, e) ↦
          let other : (i == c) ≡ false = ground arith in
          elim (Bool-cases (r.len == 0)) [
            | inl empty ↦
                rw
                  (
                    copy-some bp bps mrs need c i r e,
                    ranges_of-some bp bps r e,
                    empty,
                    covers-empty x type r empty,
                  )
                  (omega (arith, rest))
            | inr full ↦
                rw (copy-some bp bps mrs need c i r e, ranges_of-some bp bps r e, full, other)
                  (omega (arith, rest))
          ]
    ]

is_suitable-len :
    (need : ℕ) (r : MemRange) → is_suitable need r ≡ true → 0 < need → (r.len == 0) ≡ false
unfolding is_suitable
is_suitable-len need r good pos = ground arith

-- The copy covers each address with each type as often as the parameters do, but for the map's own
-- space.
copy_lem :
    (x type mrs need c : ℕ) (bps : List Bparm) (i : ℕ) (r : MemRange)
    → i ≤ c
    → IsAt bps (c - i) r
    → is_suitable need r ≡ true
    → 0 < need
    → mrs ≡ r.start + r.len - need
    → count (covers x type) (copy mrs need c bps i)
        + (if type == e820_ram then in_block x mrs need else 0)
      ≡ count (covers x type) (ranges_of bps)
        + (if type == e820_reserved then in_block x mrs need else 0)
unfolding copy ranges_of count
copy_lem x type mrs need c [] i r le there good pos e = elim there [ ]
copy_lem x type mrs need c (bp ∷ bps) i r le there good pos m = elim (Bool-cases (i == c)) [
  | inl here ↦
      let z : c - i ≡ 0 = ground arith in
      let e : mrng bp ≡ some r = rw z at there in
      let full : (r.len == 0) ≡ false = is_suitable-len need r good pos in
      let rest = copy-after x type mrs need c bps (i + 1) (ground arith) in
      let parts = count-append (covers x type) (carve mrs need r) (copy mrs need c bps (i + 1)) in
      let law = carve_lem x type mrs need r good pos m in
      rw (copy-some bp bps mrs need c i r e, ranges_of-some bp bps r e, full, here)
        (omega (arith, parts, law, rest))
  | inr other ↦
      let s : c - i ≡ suc (c - (i + 1)) = ground arith in
      let rest =
        copy_lem x type mrs need c bps (i + 1) r (ground arith) (rw s at there) good pos m in
      elim (Option-cases (mrng bp)) [
        | inl e ↦ rw (copy-none bp bps mrs need c i e, ranges_of-none bp bps e) rest
        | inr (q, e) ↦ elim (Bool-cases (q.len == 0)) [
          | inl empty ↦
              rw
                (
                  copy-some bp bps mrs need c i q e,
                  ranges_of-some bp bps q e,
                  empty,
                  covers-empty x type q empty,
                )
                (omega (arith, rest))
          | inr full ↦
              rw (copy-some bp bps mrs need c i q e, ranges_of-some bp bps q e, full, other)
                (omega (arith, rest))
        ]
      ]
]

carve-length : (mrs need : ℕ) (r : MemRange) → length (carve mrs need r) ≤ 2
unfolding carve
carve-length mrs need r = ground arith

-- The copy has at most one range more than the first loop counts.
copy-length :
    (mrs need c : ℕ) (bps : List Bparm) (i n : ℕ)
    → n + length bps < 2 ^ 32
    → (length (copy mrs need c bps i) + n ≤ count_ranges bps n + (if leb i c then 1 else 0))
      × (count_ranges bps n ≤ n + length bps)
unfolding copy count_ranges
copy-length mrs need c [] i n small = (omega arith, omega arith)
copy-length mrs need c (bp ∷ bps) i n small = elim (Option-cases (mrng bp)) [
  | inl e ↦
      let rest = copy-length mrs need c bps (i + 1) n (omega arith) in
      rw (copy-none bp bps mrs need c i e, count_ranges-none bp bps n e)
        (ground (arith, rest), omega (arith, rest))
  | inr (r, e) ↦ elim (Bool-cases (r.len == 0)) [
    | inl empty ↦
        let rest = copy-length mrs need c bps (i + 1) n (omega arith) in
        let same : (r.len != 0) ≡ false = ground arith in
        rw (copy-some bp bps mrs need c i r e, count_ranges-some bp bps n r e, empty, same)
          (ground (arith, rest), omega (arith, rest))
    | inr full ↦
        let rest = copy-length mrs need c bps (i + 1) (n + 1) (omega arith) in
        let same : (r.len != 0) ≡ true = ground arith in
        let wraps : u32 (n + 1) ≡ n + 1 = omega arith in
        let parts = length-append (carve mrs need r) (copy mrs need c bps (i + 1)) in
        let two = carve-length mrs need r in
        rw (copy-some bp bps mrs need c i r e, count_ranges-some bp bps n r e, full, same, wraps)
          (ground (arith, rest, parts, two), omega (arith, rest))
  ]
]

array_size_lem :
    (bps : List Bparm)
    → length bps ≤ 2 ^ 24
    → (count_ranges bps 1 < array_size bps) × (16 ≤ array_size bps) × (array_size bps ≤ 2 ^ 26)
unfolding array_size
array_size_lem bps small =
    let counted = (copy-length 0 0 0 bps 0 1 (omega arith)).1 in
    let size : u32 (3 * count_ranges bps 1 + 1) ≡ 3 * count_ranges bps 1 + 1 =
      omega (arith, counted) in
    rw size (ground (arith, counted))

mem_map_init-some :
    (bps : List Bparm) (c : ℕ) (r : MemRange) (sorted : List MemRange)
    → choose (need_space bps) bps 0 none ≡ some (c, r)
    → shellsort
        (copy (u32 (sub_w 64 (u64 (r.start + r.len)) (need_space bps))) (need_space bps) c bps 0)
      ≡ ok sorted
    → mem_map_init bps ≡ ok (record { mem_ranges = sorted; max_mem_ranges = array_size bps })
unfolding mem_map_init
mem_map_init-some bps c r sorted e h = rw (e, mem_map_init) (rw h refl)

-- The space of the map: `need_space` bytes from `mrs` on, below 4 GiB. Each address is covered by
-- the ranges of the map with each type as often as by those of the parameters, except that the
-- addresses of the map's own space are covered once less as available memory and once more as
-- reserved.
abbrev pub IsMapOf : List Bparm → ℕ → List MemRange → Type 0
IsMapOf bps mrs mem_ranges =
    (x type : ℕ)
    → count (covers x type) mem_ranges
        + (if type == e820_ram then in_block x mrs (need_space bps) else 0)
      ≡ count (covers x type) (ranges_of bps)
        + (if type == e820_reserved then in_block x mrs (need_space bps) else 0)

-- The map, for the range that the second loop has chosen.
chosen_map :
    (bps : List Bparm) (c : ℕ) (r : MemRange) (low : ℕ)
    → length bps ≤ 2 ^ 24
    → choose (need_space bps) bps 0 none ≡ some (c, r)
    → low ≤ r.start
    → (s : State) × (mrs : ℕ) × (mem_map_init bps ≡ ok s)
      × IsInOrder s.mem_ranges
      × (length s.mem_ranges ≤ s.max_mem_ranges)
      × (16 ≤ s.max_mem_ranges)
      × (s.max_mem_ranges * 32 ≡ need_space bps)
      × (mrs + need_space bps ≤ xm32_max_addr)
      × (low ≤ mrs)
      × IsMapOf bps mrs s.mem_ranges
unfolding is_suitable
chosen_map bps c r low small chosen above =
    let size = array_size_lem bps small in
    let need : need_space bps ≡ array_size bps * 32 = omega (arith, size) in
    elim (choose_found (need_space bps) bps 0 c none r chosen) [
      | inl bad ↦ absurd cc
      | inr (le, there, good) ↦
          let mrs = u32 (sub_w 64 (u64 (r.start + r.len)) (need_space bps)) in
          let at : mrs ≡ r.start + r.len - need_space bps = ground (arith, need, size) in
          let within : mrs + need_space bps ≤ xm32_max_addr = ground (arith, at, need, size) in
          let list = copy mrs (need_space bps) c bps 0 in
          let len = copy-length mrs (need_space bps) c bps 0 1 (omega arith) in
          let short : length list ≤ count_ranges bps 1 = ground (arith, len) in
          let (sorted, done, order, same, counts) =
            shellsort_lem list (omega (arith, size, short)) in
          (
            record { mem_ranges = sorted; max_mem_ranges = array_size bps },
            mrs,
            mem_map_init-some bps c r sorted chosen done,
            order,
            omega (arith, size, short, same),
            size.1,
            omega (arith, need),
            within,
            ground (arith, at, need, size),
            λ x type.
                let law =
                  copy_lem x type mrs (need_space bps) c bps 0 r le there good
                    (omega (arith, need, size)) at in
                omega (arith, law, counts (covers x type)),
          )
    ]

-- `mem_map_init` for up to 2 ^ 24 parameters, one of which is a range of available memory below
-- 4 GiB that has room for the map: it returns; of two nonempty ranges of the map that do not overlap,
-- the earlier one ends before the other one starts, so these are in the order of increasing ending
-- addresses, while the order of ranges that overlap is left open; the map is no longer than its array,
-- which has at least 16 entries, ends by 4 GiB and does not start below that range; and the map covers
-- each address with each type as often as the parameters do, except that the array's own addresses are
-- covered once less as available and once more as reserved.
pub mem_map_init_lem :
    (bps : List Bparm) (k : ℕ) (q : MemRange)
    → length bps ≤ 2 ^ 24
    → IsAt bps k q
    → is_suitable (need_space bps) q ≡ true
    → (s : State) × (mrs : ℕ) × (mem_map_init bps ≡ ok s)
      × IsInOrder s.mem_ranges
      × (length s.mem_ranges ≤ s.max_mem_ranges)
      × (16 ≤ s.max_mem_ranges)
      × (s.max_mem_ranges * 32 ≡ need_space bps)
      × (mrs + need_space bps ≤ xm32_max_addr)
      × (q.start ≤ mrs)
      × IsMapOf bps mrs s.mem_ranges
mem_map_init_lem bps k q small there good =
    let (c, r, chosen, above) = choose-ok (need_space bps) bps 0 k q none there good in
    chosen_map bps c r q.start small chosen above
