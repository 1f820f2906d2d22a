-- ===== src/Stage2/Va/Init/Attributes.antt =====
-- The last loop of va_init of stage2/mem.c, over the ranges with attributes of their own.
use biefircate.Prelude.{
  ℕ, zero, suc, ◌+◌, ◌-◌, ◌*◌, ◌/◌, ◌^◌, ◌%◌, ◌≤◌, ◌<◌, ◌≡◌, inl, inr, refl, sym, subst, bit_and,
  false, ◌||◌, List, arith, ltb, leb, ◌==◌, ◌!=◌, if◌then◌else◌, Bool-cases, length, Ends,
  Ends-bind, Ends-imp,
}
use biefircate.Prelude.Words.{u32, neg_w, IsAlignedDown, bit_and-neg}
use biefircate.Bparams.{MemRange}
use biefircate.Stage2.Mem.{xm32_max_addr, range_at}
use biefircate.Stage2.Vm.{State, page_size}
use biefircate.Stage2.Vm.Tables.{IsTables}
use biefircate.Stage2.Va.Init.{
  uefi_attr_to_pte_flags, do_va_id_map, len_below, attr_start, attr_len, skip_same, map_attributes,
}
use biefircate.Stage2.Va.Init.Identity.{
  flags-small, IsFilled, IsFilled-refl, IsFilled-trans, IsFilledAt, do_va_id_map_lem,
}

-- `a & -PAGE_SIZE` on 32 bits.
page_down_32 : (a : ℕ) → a < 2 ^ 32 → bit_and a (neg_w 32 page_size) ≡ a / 4096 * 4096
page_down_32 a small =
    let down : IsAlignedDown a 4096 (bit_and a (neg_w 32 4096)) =
      bit_and-neg 32 a 4096 small (12, 20, refl, refl) in
    omega (arith, down.below, down.near, down.multiple)

attr_start_lem : (mr : MemRange) → mr.start < 2 ^ 32 → attr_start mr ≡ mr.start / 4096 * 4096
unfolding attr_start
attr_start_lem mr low = let down = page_down_32 (u32 mr.start) (omega arith) in ground (arith, down)

len_below_lem : (mr : MemRange) → mr.start < 2 ^ 32 → len_below mr + mr.start ≤ 2 ^ 32
len_below_lem mr low = ground arith

-- The length before it is rounded up.
abbrev first_len : MemRange → ℕ
first_len mr =
    if u32 mr.start % page_size != 0
    then u32 (len_below mr + u32 mr.start % page_size)
    else len_below mr

first_len_lem : (mr : MemRange) → mr.start < 2 ^ 32 → first_len mr + mr.start / 4096 * 4096 ≤ 2 ^ 32
first_len_lem mr low =
    let bound = len_below_lem mr low in
    elim (Bool-cases (u32 mr.start % page_size != 0)) [
      | inl e ↦ rw e (omega (arith, bound))
      | inr e ↦ rw e (omega (arith, bound))
    ]

attr_len_lem :
    (mr : MemRange)
    → mr.start < 2 ^ 32
    → (attr_len mr ≡ attr_len mr / 4096 * 4096) × (mr.start / 4096 + attr_len mr / 4096 ≤ 2 ^ 20)
unfolding attr_len
attr_len_lem mr low =
    let bound = first_len_lem mr low in
    let down = page_down_32 (u32 (first_len mr + page_size - 1)) (omega arith) in
    elim (Bool-cases (first_len mr % page_size != 0)) [
      | inl e ↦ rw (e, down) (omega (arith, bound), omega (arith, bound))
      | inr e ↦
          let whole : first_len mr % 4096 ≡ 0 = ground arith in
          rw e (omega (arith, whole), omega (arith, bound))
    ]

skip_same_lem :
    (mrs : List MemRange) (start64 left i : ℕ)
    → (i ≤ skip_same mrs start64 left i)
      × (0 < left
          → i < length mrs
          → (range_at mrs i).start ≤ start64
          → i < skip_same mrs start64 left i)
unfolding skip_same
skip_same_lem mrs start64 zero i = (omega arith, λ pos l low. absurd (omega arith))
skip_same_lem mrs start64 (suc left) i =
    let rest = (skip_same_lem mrs start64 left (i + 1)).0 in
    (ground (arith, rest), λ pos l low. ground (arith, rest))

-- The loop ends, within as many rounds as the array has places behind `i`.
pub map_attributes_lem :
    (rounds i : ℕ) (s : State)
    → IsTables s
    → s.mem.max_mem_ranges ≤ i + rounds
    → Ends (IsFilled s) (map_attributes rounds i s)
unfolding map_attributes
map_attributes_lem zero i s t fuel =
    let over : ltb i (length s.mem.mem_ranges) ≡ false = ground (arith, t.valid.room) in
    rw over (IsFilled-refl s t)
map_attributes_lem (suc rounds) i s t fuel = elim (Bool-cases (ltb i (length s.mem.mem_ranges))) [
  | inr over ↦ rw (over, map_attributes) (IsFilled-refl s t)
  | inl more ↦
      let mr = range_at s.mem.mem_ranges i in
      let flags = uefi_attr_to_pte_flags mr.uefi_attr in
      elim (Bool-cases ((flags == 0) || leb xm32_max_addr mr.start)) [
        | inl skip ↦
            rw (more, skip, map_attributes) (map_attributes_lem rounds (i + 1) s t (omega arith))
        | inr maps ↦
            let low : mr.start < 2 ^ 32 = ground arith in
            let (whole, room) = attr_len_lem mr low in
            let v = mr.start / 4096 in
            let c = attr_len mr / 4096 in
            let mapped : Ends (IsFilledAt v c s)
                (do_va_id_map (attr_start mr) (attr_len mr) flags s) =
              subst (λ a. Ends (IsFilledAt v c s) (do_va_id_map a (attr_len mr) flags s))
                (sym (attr_start_lem mr low))
                (subst (λ l. Ends (IsFilledAt v c s) (do_va_id_map (v * 4096) l flags s))
                  (sym whole) (do_va_id_map_lem v c flags s (flags-small mr.uefi_attr) t room)) in
            rw (more, maps, map_attributes)
              (Ends-bind (IsFilledAt v c s) (IsFilled s)
                (do_va_id_map (attr_start mr) (attr_len mr) flags s) _ mapped
                λ s1 (filled, at).
                  let (same, keeps, grows) = filled.kept in
                  let i_in : i < length s.mem.mem_ranges = ground arith in
                  let next =
                    skip_same_lem s1.mem.mem_ranges mr.start (length s1.mem.mem_ranges) i in
                  let step =
                    next.1 (omega (arith, i_in, grows.longer)) (omega (arith, i_in, grows.longer))
                      (grows.lower i i_in) in
                  Ends-imp (IsFilled s1) (IsFilled s) _ (λ s2. IsFilled-trans s s1 s2 filled)
                    (map_attributes_lem rounds
                      (skip_same s1.mem.mem_ranges mr.start (length s1.mem.mem_ranges) i) s1
                      filled.tables (omega (arith, step, fuel, grows.same_max))))
      ]
]
