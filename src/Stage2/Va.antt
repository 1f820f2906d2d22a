-- ===== src/Stage2/Va.antt =====
-- stage2/mem.c: handing out virtual addresses for physical memory, and taking them back. The part of
-- `unused_va_ranges` in use is a list, so `num_unused_va_ranges` is its length.
pub mod Ranges
pub mod Map
pub mod Unmap
pub mod Init
pub mod Tests
use biefircate.Prelude.{
  ℕ, zero, suc, ◌+◌, ◌-◌, ◌*◌, ◌/◌, ◌^◌, ◌%◌, bit_and, Bool, true, false, ◌&&◌, ◌||◌, Option, none,
  some, List, [], ◌∷◌, ltb, leb, ◌==◌, if◌then◌else◌, length, get_or, set, Outcome, ok, stop, Stop,
  ◌>>=◌,
}
use biefircate.Prelude.Words.{u32, u64, sub_w, neg_w}
use biefircate.Stage2.Mem.{xm32_max_addr}
use biefircate.Stage2.Vm.{VaRange, State, page_size, do_va_map, do_va_unmap}

abbrev pub no_va : VaRange
no_va = record { start = 0; len = 0 }

abbrev pub va_at : List VaRange → ℕ → VaRange
va_at vrs i = get_or vrs i no_va

-- The physical pages of `mem_va_map`, `pstart` and `pend`.
abbrev pub pstart_of : ℕ → ℕ
pstart_of pa = bit_and pa (neg_w 64 page_size)

abbrev pub pend_of : ℕ → ℕ → ℕ
pend_of pa sz = bit_and (u64 (pa + sz + page_size - 1)) (neg_w 64 page_size)

-- Its loop from below index `n`: the highest range that has room.
unfoldable pub va_scan : List VaRange → ℕ → ℕ → Option ℕ
va_scan vrs sz zero = none
va_scan vrs sz (suc i) =
    let rest = va_scan vrs sz i in if leb sz (va_at vrs i).len then some i else rest

-- The upper end of range `i` is taken.
abbrev pub take_va : State → ℕ → ℕ → State
take_va s i sz = record s {
  unused_va_ranges =
      set s.unused_va_ranges i (record (va_at s.unused_va_ranges i) {
        len = sub_w 32 (va_at s.unused_va_ranges i).len sz;
      });
}

-- `mem_va_map(pa, sz, pte_flags)`. The loop of `do_va_map` has a round for each page of 4 GiB.
unfoldable pub mem_va_map : ℕ → ℕ → ℕ → State → Outcome (ℕ × State)
mem_va_map pa sz flags s =
    if sz == 0
    then ok (0, s)
    else let sz_to_map = sub_w 64 (pend_of pa sz) (pstart_of pa) in
      if leb xm32_max_addr sz_to_map
      then stop Stop.hlt
      else elim (va_scan s.unused_va_ranges sz_to_map (length s.unused_va_ranges)) [
        | none ↦ stop Stop.hlt
        | some i ↦
            let s1 = take_va s i sz_to_map in
            let vr = va_at s1.unused_va_ranges i in
            let vstart = u32 (vr.start + vr.len) in
            do_va_map (2 ^ 20) vstart (pstart_of pa) sz_to_map flags s1 >>= λ s2.
            ok (u32 (vstart + pa % page_size), s2)
      ]

-- The virtual pages of `mem_va_unmap`, `vstart` and `vend`.
abbrev pub vstart_of : ℕ → ℕ
vstart_of va = bit_and va (neg_w 64 page_size)

abbrev pub vend_of : ℕ → ℕ → ℕ
vend_of va sz = bit_and (u32 (va + sz + page_size - 1)) (neg_w 64 page_size)

-- A range goes in behind range `i`.
unfoldable pub insert_after : List VaRange → ℕ → VaRange → List VaRange
insert_after [] i vr = []
insert_after (x ∷ xs) zero vr = x ∷ vr ∷ xs
insert_after (x ∷ xs) (suc i) vr = x ∷ insert_after xs i vr

-- The loop of `mem_va_unmap` from below index `n`.
unfoldable pub give_back : ℕ → List VaRange → ℕ → ℕ → ℕ → ℕ → Outcome (List VaRange)
give_back most vrs vstart vend sz zero = stop Stop.hlt
give_back most vrs vstart vend sz (suc i) =
    let rest = give_back most vrs vstart vend sz i in
    let vr = va_at vrs i in
    if vr.start == vend
    then ok (set vrs i (record { start = vstart; len = u32 (vr.len + sz) }))
    else if u32 (vr.start + vr.len) == vstart
    then ok (set vrs i (record vr { len = u32 (vr.len + sz) }))
    else if ltb vr.start vstart
    then (if length vrs == most
        then stop Stop.hlt
        else ok (insert_after vrs i (record { start = vstart; len = sz })))
    else rest

-- `mem_va_unmap(va, sz)`.
unfoldable pub mem_va_unmap : ℕ → ℕ → State → Outcome State
mem_va_unmap va sz s =
    if sz == 0
    then ok s
    else let vstart = vstart_of va in
      let vend = vend_of va sz in
      let sz_to_unmap = sub_w 32 vend vstart in
      do_va_unmap (2 ^ 20) vstart sz_to_unmap s >>= λ s1.
      give_back s1.max_unused_va_ranges s1.unused_va_ranges vstart vend sz_to_unmap
        (length s1.unused_va_ranges)
      >>= λ vrs. ok (record s1 { unused_va_ranges = vrs })
