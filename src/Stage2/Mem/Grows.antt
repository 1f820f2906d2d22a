-- ===== src/Stage2/Mem/Grows.antt =====
-- mem_alloc of stage2/mem.c splits ranges, so the map gets longer and no range of an index moves up.
use biefircate.Prelude.{
  ℕ, zero, suc, ◌+◌, ◌≤◌, ◌<◌, ◌≡◌, inl, inr, refl, false, List, [], ◌∷◌, arith, leb, ◌==◌,
  Bool-cases, length, set, length-set, ok,
}
use biefircate.Prelude.Words.{u64}
use biefircate.Bparams.{MemRange, e820_ram, e820_reserved}
use biefircate.Stage2.Mem.{
  State, range_at, double_at, lower_half, upper_half, split_range, mem_alloc,
}
use biefircate.Stage2.Mem.Layout.{IsMapFrom, range_at_order, split_lem}
use biefircate.Stage2.Mem.Alloc.{IsValid, IsRequest, parted, mem_alloc_index}

-- From one map to a later one.
pub record Grows (s s' : State) : Type 0 where
  pub same_max : s'.max_mem_ranges ≡ s.max_mem_ranges
  pub longer : length s.mem_ranges ≤ length s'.mem_ranges
  pub lower :
      (k : ℕ)
      → k < length s.mem_ranges
      → (range_at s'.mem_ranges k).start ≤ (range_at s.mem_ranges k).start

pub Grows-refl : (s : State) → Grows s s
Grows-refl s = record { same_max = refl; longer = omega arith; lower = λ k l. omega arith }

pub Grows-trans : (s t u : State) → Grows s t → Grows t u → Grows s u
Grows-trans s t u a b = record {
  same_max = omega (arith, a.same_max, b.same_max);
  longer = omega (arith, a.longer, b.longer);
  lower = λ k l. omega (arith, a.lower k l, b.lower k (omega (arith, a.longer)));
}

split-starts :
    (from i at below above k : ℕ) (mrs : List MemRange)
    → IsMapFrom from mrs
    → i < length mrs
    → at < (range_at mrs i).start + (range_at mrs i).len
    → k < length mrs
    → (range_at
        (set
          (set (double_at mrs i) i (lower_half (range_at mrs i) at below))
          (suc i)
          (upper_half (range_at mrs i) at above))
        k).start
      ≤ (range_at mrs k).start
unfolding double_at
split-starts from i at below above k [] m l hi kl = absurd (omega arith)
split-starts from zero at below above zero (mr ∷ mrs) m l hi kl = omega arith
split-starts from zero at below above (suc zero) (mr ∷ []) m l hi kl = absurd (omega arith)
split-starts from zero at below above (suc zero) (mr ∷ m2 ∷ mrs) m l hi kl = omega (arith, m.3.0)
split-starts from zero at below above (suc (suc k)) (mr ∷ mrs) m l hi kl =
    omega (arith, range_at_order (mr.start + mr.len) k (suc k) mrs m.3 (omega arith) (omega arith))
split-starts from (suc i) at below above zero (mr ∷ mrs) m l hi kl = omega arith
split-starts from (suc i) at below above (suc k) (mr ∷ mrs) m l hi kl =
    split-starts (mr.start + mr.len) i at below above k mrs m.3 (omega arith) hi (omega arith)

set-starts :
    (i type k : ℕ) (mrs : List MemRange)
    → (range_at (set mrs i (record (range_at mrs i) { e820_type = type })) k).start
      ≡ (range_at mrs k).start
set-starts i type k [] = refl
set-starts zero type zero (mr ∷ mrs) = refl
set-starts zero type (suc k) (mr ∷ mrs) = refl
set-starts (suc i) type zero (mr ∷ mrs) = refl
set-starts (suc i) type (suc k) (mr ∷ mrs) = set-starts i type k mrs

-- A range that is taken whole.
retyped :
    (s : State) (i type : ℕ)
    → Grows s (record s {
      mem_ranges = set s.mem_ranges i (record (range_at s.mem_ranges i) { e820_type = type });
    })
retyped s i type =
    let size = length-set s.mem_ranges i (record (range_at s.mem_ranges i) { e820_type = type }) in
    record {
      same_max = refl;
      longer = omega (arith, size);
      lower = λ k l. omega (arith, set-starts i type k s.mem_ranges);
    }

pub mem_alloc-Grows :
    (s s' : State) (sz align max_addr a : ℕ)
    → IsValid s
    → IsRequest sz align max_addr
    → mem_alloc s sz align max_addr ≡ ok (a, s')
    → Grows s s'
unfolding split_range
mem_alloc-Grows s s' sz align max_addr a v r h =
    let (i, i_in, end, word, place, parts) = mem_alloc_index s s' sz align max_addr a v r h in
    let mr = range_at s.mem_ranges i in
    let inside : (u64 (mr.start + mr.len) == a) ≡ false = ground (arith, place.fits, r.size) in
    elim (Bool-cases (mr.start == a)) [
      | inl e ↦
          let g : s' ≡ record s {
            mem_ranges = set s.mem_ranges i (record mr { e820_type = e820_reserved });
          } =
            let reached = rw e at parts in cc in
          rw g (retyped s i e820_reserved)
      | inr e ↦ elim (Bool-cases (leb s.max_mem_ranges (length s.mem_ranges))) [
        | inl full ↦ absurd (let bad = rw (e, inside, full) at parts in cc)
        | inr room ↦
            let g : s' ≡ parted s i a = let reached = rw (e, inside, room) at parts in cc in
            let low : mr.start < a = ground (arith, place.above_start) in
            let size =
              split_lem 0 i a e820_ram e820_reserved s.mem_ranges v.laid_out i_in low
                (omega (arith, place.fits, r.size)) in
            rw g (record {
              same_max = refl;
              longer = omega (arith, size.1);
              lower = λ k l.
                  split-starts 0 i a e820_ram e820_reserved k s.mem_ranges v.laid_out i_in
                    (omega (arith, place.fits, r.size)) l;
            })
      ]
    ]
