-- ===== src/Stage2/Mem/Ends.antt =====
-- mem_alloc of stage2/mem.c ends: it returns, halts or leaves the array, and never loops for ever.
use biefircate.Prelude.{
  ℕ, zero, suc, ◌+◌, ◌≡◌, inl, inr, false, List, arith, ltb, leb, ◌==◌, Bool-cases, length, Outcome,
  ok, stop, Stop, Ends, Ends-bind,
}
use biefircate.Prelude.Words.{u64}
use biefircate.Bparams.{MemRange, e820_ram, e820_reserved}
use biefircate.Stage2.Mem.{
  State, range_at, is_above, walk_down, find_highest_range_below, split_range, Visit, visit,
  mem_scan, limit, mem_alloc,
}
use biefircate.Stage2.Mem.Search.{halve_lem}
use biefircate.Stage2.Mem.Alloc.{IsValid, IsRequest}

abbrev Any {ℓ} : {A : Type ℓ} → A → Type 0
Any a = Unit

walk_down-Ends :
    (max_addr : ℕ) (mrs : List MemRange) (left : ℕ) → Ends Any (walk_down max_addr mrs left)
unfolding walk_down
walk_down-Ends max_addr mrs zero = elim (Bool-cases (is_above max_addr (range_at mrs 0))) [
  | inl e ↦ rw e tt
  | inr e ↦ rw e tt
]
walk_down-Ends max_addr mrs (suc left) =
    elim (Bool-cases (is_above max_addr (range_at mrs (suc left)))) [
      | inl e ↦ rw e (walk_down-Ends max_addr mrs left)
      | inr e ↦ rw e tt
    ]

mem_scan-Ends :
    (sz align : ℕ) (mrs : List MemRange) (top : ℕ) → Ends Any (mem_scan sz align mrs top)
unfolding mem_scan
mem_scan-Ends sz align mrs zero =
    elim (visit sz align (range_at mrs 0))
      as (λ v. Ends Any (elim v as (λ _. Outcome (ℕ × ℕ)) [
        | Visit.go_on ↦ stop Stop.fault
        | Visit.give_up ↦ stop Stop.hlt
        | Visit.take_at astart ↦ ok (0, astart)
      ])) [ Visit.go_on ↦ tt | Visit.give_up ↦ tt | Visit.take_at a ↦ tt ]
mem_scan-Ends sz align mrs (suc top) =
    elim (visit sz align (range_at mrs (suc top)))
      as (λ v. Ends Any (elim v as (λ _. Outcome (ℕ × ℕ)) [
        | Visit.go_on ↦ mem_scan sz align mrs top
        | Visit.give_up ↦ stop Stop.hlt
        | Visit.take_at astart ↦ ok (suc top, astart)
      ])) [
        | Visit.go_on ↦ mem_scan-Ends sz align mrs top
        | Visit.give_up ↦ tt
        | Visit.take_at a ↦ tt
      ]

split_range-Ends : (s : State) (i a below above : ℕ) → Ends Any (split_range s i a below above)
unfolding split_range
split_range-Ends s i a below above =
    let mr = range_at s.mem_ranges i in
    elim (Bool-cases (mr.start == a)) [
      | inl e ↦ rw e tt
      | inr e ↦ elim (Bool-cases (u64 (mr.start + mr.len) == a)) [
        | inl g ↦ rw (e, g) tt
        | inr g ↦ elim (Bool-cases (leb s.max_mem_ranges (length s.mem_ranges))) [
          | inl full ↦ rw (e, g, full) tt
          | inr room ↦ rw (e, g, room) tt
        ]
      ]
    ]

pub mem_alloc-Ends :
    (s : State) (sz align max_addr : ℕ)
    → IsValid s
    → IsRequest sz align max_addr
    → Ends Any (mem_alloc s sz align max_addr)
unfolding mem_alloc find_highest_range_below
mem_alloc-Ends s sz align max_addr v r =
    let some_size : (sz == 0) ≡ false = ground (arith, r.size) in
    elim (Bool-cases (ltb (limit max_addr) sz)) [
      | inl small ↦ rw (some_size, small) tt
      | inr big ↦
          let (l, halved, ll, rest) =
            halve_lem (limit max_addr) s.mem_ranges (ground (arith, r.size))
              (ground (arith, r.in_word)) v.laid_out (length s.mem_ranges) 0 (length s.mem_ranges)
              v.some_range (omega arith) (omega arith) (omega (arith, v.room, v.in_word))
              (λ i il fits. il) in
          rw (some_size, big, halved)
            (Ends-bind Any Any (walk_down (limit max_addr) s.mem_ranges l) _
              (walk_down-Ends (limit max_addr) s.mem_ranges l)
              λ top _.
                Ends-bind Any Any (mem_scan sz align s.mem_ranges top) _
                  (mem_scan-Ends sz align s.mem_ranges top)
                  λ (i, a) _.
                    Ends-bind Any Any (split_range s i a e820_ram e820_reserved) _
                      (split_range-Ends s i a e820_ram e820_reserved) λ s' _. tt)
    ]
