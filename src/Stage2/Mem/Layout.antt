-- ===== src/Stage2/Mem/Layout.antt =====
-- What the memory map of stage2/mem.c says of each address.
use biefircate.Prelude.{
  ℕ, zero, suc, ◌+◌, ◌-◌, ◌^◌, ◌≤◌, ◌<◌, ◌≡◌, refl, ◌&&◌, Option, none, some, List, [], ◌∷◌, arith,
  ltb, leb, if◌then◌else◌, length, set, ap,
}
use biefircate.Prelude.Words.{sub_w}
use biefircate.Bparams.{MemRange}
use biefircate.Stage2.Mem.{range_at, double_at, lower_half, upper_half}

-- The ranges lie one behind the other from `from` on, none is empty, and all end by 2 ^ 64.
abbrev pub IsMapFrom : ℕ → List MemRange → Type 0
IsMapFrom from [] = Unit
IsMapFrom from (mr ∷ mrs) =
    (from ≤ mr.start)
    × (0 < mr.len)
    × (mr.start + mr.len ≤ 2 ^ 64)
    × IsMapFrom (mr.start + mr.len) mrs

-- The type of the range that has an address.
unfoldable pub type_of : ℕ → List MemRange → Option ℕ
type_of x [] = none
type_of x (mr ∷ mrs) =
    let rest = type_of x mrs in
    if leb mr.start x && ltb x (mr.start + mr.len) then some mr.e820_type else rest

pub IsMapFrom-mono : (a b : ℕ) (mrs : List MemRange) → a ≤ b → IsMapFrom b mrs → IsMapFrom a mrs
IsMapFrom-mono a b [] h m = tt
IsMapFrom-mono a b (mr ∷ mrs) h m = (omega (arith, m), m.1, m.2, m.3)

-- A range in the map is bounded as the map says.
pub range_at_bounds :
    (from i : ℕ) (mrs : List MemRange)
    → IsMapFrom from mrs
    → i < length mrs
    → let mr = range_at mrs i in (from ≤ mr.start) × (0 < mr.len) × (mr.start + mr.len ≤ 2 ^ 64)
range_at_bounds from i [] m l = absurd (omega arith)
range_at_bounds from zero (mr ∷ mrs) m l = (m.0, m.1, m.2)
range_at_bounds from (suc i) (mr ∷ mrs) m l =
    let rest = range_at_bounds (mr.start + mr.len) i mrs m.3 (omega arith) in
    (omega (arith, m, rest), rest.1, rest.2)

-- A range ends before those with higher indices start.
pub range_at_order :
    (from i j : ℕ) (mrs : List MemRange)
    → IsMapFrom from mrs
    → i < j
    → j < length mrs
    → (range_at mrs i).start + (range_at mrs i).len ≤ (range_at mrs j).start
range_at_order from i j [] m lt l = absurd (omega arith)
range_at_order from i zero (mr ∷ mrs) m lt l = absurd (omega arith)
range_at_order from zero (suc j) (mr ∷ mrs) m lt l =
    (range_at_bounds (mr.start + mr.len) j mrs m.3 (omega arith)).0
range_at_order from (suc i) (suc j) (mr ∷ mrs) m lt l =
    range_at_order (mr.start + mr.len) i j mrs m.3 (omega arith) (omega arith)

-- What a map says of the addresses of one of its ranges.
pub type_of-range_at :
    (from x i : ℕ) (mrs : List MemRange)
    → IsMapFrom from mrs
    → i < length mrs
    → (range_at mrs i).start ≤ x
    → x < (range_at mrs i).start + (range_at mrs i).len
    → type_of x mrs ≡ some (range_at mrs i).e820_type
unfolding type_of
type_of-range_at from x i [] m l lo hi = absurd (omega arith)
type_of-range_at from x zero (mr ∷ mrs) m l lo hi = ground arith
type_of-range_at from x (suc i) (mr ∷ mrs) m l lo hi =
    let b = range_at_bounds (mr.start + mr.len) i mrs m.3 (omega arith) in
    let rest = type_of-range_at (mr.start + mr.len) x i mrs m.3 (omega arith) lo hi in
    ground (arith, b, rest)

-- Addresses below the map have no type.
pub type_of-below :
    (from x : ℕ) (mrs : List MemRange) → IsMapFrom from mrs → x < from → type_of x mrs ≡ none
unfolding type_of
type_of-below from x [] m lt = refl
type_of-below from x (mr ∷ mrs) m lt =
    let rest = type_of-below (mr.start + mr.len) x mrs m.3 (omega (arith, m)) in
    ground (arith, m, rest)

-- Changing the type of a range changes what the map says of its addresses, and of no others.
pub set-type_lem :
    (from i type : ℕ) (mrs : List MemRange)
    → IsMapFrom from mrs
    → i < length mrs
    → let mr = range_at mrs i in
      let mrs' = set mrs i (record mr { e820_type = type }) in
      IsMapFrom from mrs'
      × ((x : ℕ)
          → type_of x mrs'
            ≡ (if leb mr.start x && ltb x (mr.start + mr.len) then some type else type_of x mrs))
unfolding type_of
set-type_lem from i type [] m l = absurd (omega arith)
set-type_lem from zero type (mr ∷ mrs) m l = (m, λ x. ground arith)
set-type_lem from (suc i) type (mr ∷ mrs) m l =
    let rest = set-type_lem (mr.start + mr.len) i type mrs m.3 (omega arith) in
    let b = range_at_bounds (mr.start + mr.len) i mrs m.3 (omega arith) in
    ((m.0, m.1, m.2, rest.0), λ x. ground (arith, rest.1 x, b))

-- A range that is split in two at an address inside it, with a type for either half.
pub split_lem :
    (from i at below above : ℕ) (mrs : List MemRange)
    → IsMapFrom from mrs
    → i < length mrs
    → (range_at mrs i).start < at
    → at < (range_at mrs i).start + (range_at mrs i).len
    → let mr = range_at mrs i in
      let mrs' =
        set (set (double_at mrs i) i (lower_half mr at below)) (suc i) (upper_half mr at above) in
      IsMapFrom from mrs'
      × (length mrs' ≡ suc (length mrs))
      × ((x : ℕ)
          → type_of x mrs' ≡ (
              if leb mr.start x && ltb x at
              then some below
              else if leb at x && ltb x (mr.start + mr.len)
              then some above
              else type_of x mrs))
unfolding type_of double_at
split_lem from i at below above [] m l lo hi = absurd (omega arith)
split_lem from zero at below above (mr ∷ mrs) m l lo hi =
    let len_low : sub_w 64 at mr.start ≡ at - mr.start = omega (arith, m) in
    let len_high : sub_w 64 mr.len (at - mr.start) ≡ mr.len - (at - mr.start) = omega (arith, m) in
    let e : mr.start + (at - mr.start) ≡ at = omega arith in
    let g : at + (mr.len - (at - mr.start)) ≡ mr.start + mr.len = omega arith in
    rw (len_low, len_high)
      (
        (
          m.0,
          omega arith,
          omega (arith, m),
          (omega arith, omega arith, omega (arith, m), rw g m.3),
        ),
        refl,
        λ x. rw (e, g) (ground arith),
      )
split_lem from (suc i) at below above (mr ∷ mrs) m l lo hi =
    let rest = split_lem (mr.start + mr.len) i at below above mrs m.3 (omega arith) lo hi in
    let b = range_at_bounds (mr.start + mr.len) i mrs m.3 (omega arith) in
    ((m.0, m.1, m.2, rest.0), ap suc rest.1, λ x. ground (arith, rest.2 x, b))
