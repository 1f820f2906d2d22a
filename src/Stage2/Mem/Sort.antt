-- ===== src/Stage2/Mem/Sort.antt =====
-- shellsort of stage2/mem.c sorts.
use biefircate.Prelude.{
  ℕ, zero, suc, ◌+◌, ◌-◌, ◌*◌, ◌/◌, ◌^◌, ◌≤◌, ◌<◌, ◌≡◌, ◌≢◌, ◌⊎◌, inl, inr, refl, ◌∙◌, ap, Bool,
  true, false, ◌&&◌, List, [], ◌∷◌, arith, ltb, leb, ◌==◌, if◌then◌else◌, Bool-cases, lt-cases,
  length, set, length-set, get_or-set_self, get_or-set_ne, ok,
}
use native.Mathlib.Nat.{mul_comm, mul_assoc}
use biefircate.Prelude.Digits.{mul-pow_double}
use biefircate.Prelude.Words.{u32, sub_w}
use biefircate.Bparams.{MemRange}
use biefircate.Stage2.Mem.{
  no_range, range_at, shift_up, insert, insertions, passes, double, shellsort,
}

-- How many of the ranges pass a test.
unfoldable pub count : (MemRange → Bool) → List MemRange → ℕ
count t [] = 0
count t (x ∷ xs) = (if t x then 1 else 0) + count t xs

abbrev one : (MemRange → Bool) → MemRange → ℕ
one t x = if t x then 1 else 0

count-set :
    (t : MemRange → Bool) (xs : List MemRange) (i : ℕ) (v : MemRange)
    → i < length xs
    → count t (set xs i v) + one t (range_at xs i) ≡ count t xs + one t v
unfolding count
count-set t [] i v h = absurd (omega arith)
count-set t (x ∷ xs) zero v h = omega arith
count-set t (x ∷ xs) (suc i) v h = omega (arith, count-set t xs i v (omega arith))

shift_up-length :
    (rounds h : ℕ) (v : MemRange) (j : ℕ) (mrs : List MemRange)
    → let r = shift_up rounds h v j mrs in (r.0 ≤ j) × (length r.1 ≡ length mrs)
unfolding shift_up
shift_up-length zero h v j mrs = (omega arith, refl)
shift_up-length (suc rounds) h v j mrs =
    let rest = shift_up-length rounds h v (j - h) (set mrs j (range_at mrs (j - h))) in
    let same = length-set mrs j (range_at mrs (j - h)) in ground (arith, rest, same)

-- The last step of a round puts `v` where the hole is, and then nothing is lost.
shift_up-count :
    (t : MemRange → Bool) (rounds h : ℕ) (v : MemRange) (j : ℕ) (mrs : List MemRange)
    → 0 < h
    → j < length mrs
    → let r = shift_up rounds h v j mrs in count t (set r.1 r.0 v) ≡ count t (set mrs j v)
unfolding shift_up
shift_up-count t zero h v j mrs p q = refl
shift_up-count t (suc rounds) h v j mrs p q =
    elim (Bool-cases (leb h j && ltb v.start (range_at mrs (j - h)).start)) [
      | inl e ↦
          let m = range_at mrs (j - h) in
          let size = length-set mrs j m in
          let rest = shift_up-count t rounds h v (j - h) (set mrs j m) p (omega arith) in
          let there : range_at (set mrs j m) (j - h) ≡ m =
            get_or-set_ne mrs j (j - h) m no_range (ground arith) in
          let moved = count-set t mrs j m q in
          let filled = count-set t (set mrs j m) (j - h) v (omega arith) in
          let direct = count-set t mrs j v q in
          rw e (rest ∙ omega (arith, moved, rw there at filled, direct))
      | inr e ↦ rw e refl
    ]

set_same : (xs : List MemRange) (i : ℕ) → set xs i (range_at xs i) ≡ xs
set_same [] i = refl
set_same (x ∷ xs) zero = refl
set_same (x ∷ xs) (suc i) = ap (λ r. x ∷ r) (set_same xs i)

insert-length : (h i : ℕ) (mrs : List MemRange) → length (insert h i mrs) ≡ length mrs
unfolding insert
insert-length h i mrs =
    let r = shift_up i h (range_at mrs i) i mrs in
    length-set r.1 r.0 (range_at mrs i) ∙ (shift_up-length i h (range_at mrs i) i mrs).1

insert-count :
    (t : MemRange → Bool) (h i : ℕ) (mrs : List MemRange)
    → 0 < h
    → i < length mrs
    → count t (insert h i mrs) ≡ count t mrs
unfolding insert
insert-count t h i mrs p q =
    shift_up-count t i h (range_at mrs i) i mrs p q ∙ ap (count t) (set_same mrs i)

insertions_lem :
    (t : MemRange → Bool) (left h i : ℕ) (mrs : List MemRange)
    → 0 < h
    → left ≤ length mrs - i
    → (length (insertions left h i mrs) ≡ length mrs)
      × (count t (insertions left h i mrs) ≡ count t mrs)
unfolding insertions
insertions_lem t zero h i mrs p q = (refl, refl)
insertions_lem t (suc left) h i mrs p q =
    let size = insert-length h i mrs in
    let rest = insertions_lem t left h (i + 1) (insert h i mrs) p (omega arith) in
    (rest.0 ∙ size, rest.1 ∙ insert-count t h i mrs p (omega arith))

passes_lem :
    (t : MemRange → Bool) (rounds h : ℕ) (mrs : List MemRange)
    → (length (passes rounds h mrs) ≡ length mrs) × (count t (passes rounds h mrs) ≡ count t mrs)
unfolding passes
passes_lem t zero h mrs = (refl, refl)
passes_lem t (suc rounds) h mrs = elim (Bool-cases (h == 0)) [
  | inl e ↦ rw e (refl, refl)
  | inr e ↦
      let once = insertions_lem t (length mrs - h) h h mrs (ground arith) (omega arith) in
      let rest = passes_lem t rounds (h / 2) (insertions (length mrs - h) h h mrs) in
      rw e (rest.0 ∙ once.0, rest.1 ∙ once.1)
]

abbrev start_at : List MemRange → ℕ → ℕ
start_at mrs p = (range_at mrs p).start

-- The ranges below index `n` are in order.
abbrev IsSortedBelow : ℕ → List MemRange → Type 0
IsSortedBelow n mrs = (p q : ℕ) → p < q → q < n → start_at mrs p ≤ start_at mrs q

-- The same but for a hole at `j`, above which all starts are at least `low`.
abbrev IsHole : ℕ → ℕ → ℕ → List MemRange → Type 0
IsHole n j low mrs =
    ((p q : ℕ) → p < q → q < n → p ≢ j → q ≢ j → start_at mrs p ≤ start_at mrs q)
    × ((q : ℕ) → j < q → q < n → low ≤ start_at mrs q)

start_at-set :
    (mrs : List MemRange) (j p : ℕ) (v : MemRange)
    → j < length mrs
    → start_at (set mrs j v) p ≡ (if p == j then v.start else start_at mrs p)
start_at-set mrs j p v h = elim (Bool-cases (p == j)) [
  | inl e ↦
      let g : p ≡ j = ground arith in
      rw (e, g) (ap (λ m. m.start) (get_or-set_self mrs j v no_range h))
  | inr e ↦ rw e (ap (λ m. m.start) (get_or-set_ne mrs j p v no_range (ground arith)))
]

IsHole-step :
    (n j low : ℕ) (mrs : List MemRange)
    → j < length mrs
    → j < n
    → 1 ≤ j
    → low < start_at mrs (j - 1)
    → IsHole n j low mrs
    → IsHole n (j - 1) low (set mrs j (range_at mrs (j - 1)))
IsHole-step n j low mrs l jn pos above hole = (
  λ p q lt qn pj qj. ground (
    arith,
    start_at-set mrs j p (range_at mrs (j - 1)) l,
    start_at-set mrs j q (range_at mrs (j - 1)) l,
    hole.0 p q,
    hole.0 p (j - 1),
    hole.0 (j - 1) q,
  ),
  λ q lt qn. ground (arith, start_at-set mrs j q (range_at mrs (j - 1)) l, hole.1 q),
)

-- Where the hole ends: nothing below it is above `low`.
IsHole-shift_up :
    (rounds n : ℕ) (v : MemRange) (j : ℕ) (mrs : List MemRange)
    → j ≤ rounds
    → j < n
    → n ≤ length mrs
    → IsHole n j v.start mrs
    → let r = shift_up rounds 1 v j mrs in
      IsHole n r.0 v.start r.1 × (1 ≤ r.0 → start_at r.1 (r.0 - 1) ≤ v.start)
unfolding shift_up
IsHole-shift_up zero n v j mrs le jn nl hole = (hole, λ pos. absurd (omega arith))
IsHole-shift_up (suc rounds) n v j mrs le jn nl hole =
    elim (Bool-cases (leb 1 j && ltb v.start (range_at mrs (j - 1)).start)) [
      | inl e ↦
          let m = range_at mrs (j - 1) in
          let step =
            IsHole-step n j v.start mrs (omega arith) jn (ground arith) (ground arith) hole in
          let size = length-set mrs j m in
          rw e (
            IsHole-shift_up rounds n v (j - 1) (set mrs j m) (omega arith) (omega arith)
              (omega arith) step)
      | inr e ↦ rw e (hole, λ pos. ground arith)
    ]

IsHole-fill :
    (n j : ℕ) (v : MemRange) (mrs : List MemRange)
    → j < n
    → n ≤ length mrs
    → IsHole n j v.start mrs
    → (1 ≤ j → start_at mrs (j - 1) ≤ v.start)
    → IsSortedBelow n (set mrs j v)
IsHole-fill n j v mrs jn nl hole below p q lt qn = ground (
  arith,
  start_at-set mrs j p v (omega arith),
  start_at-set mrs j q v (omega arith),
  hole.0 p q,
  hole.0 p (j - 1),
  hole.1 q,
  below,
)

insert-IsSortedBelow :
    (i : ℕ) (mrs : List MemRange)
    → i < length mrs
    → IsSortedBelow i mrs
    → IsSortedBelow (i + 1) (insert 1 i mrs)
unfolding insert
insert-IsSortedBelow i mrs l sorted =
    let v = range_at mrs i in
    let hole : IsHole (i + 1) i v.start mrs =
      (λ p q lt qn pi qi. sorted p q lt (omega arith), λ q lt qn. absurd (omega arith)) in
    let r = shift_up i 1 v i mrs in
    let size = shift_up-length i 1 v i mrs in
    let ends = IsHole-shift_up i (i + 1) v i mrs (omega arith) (omega arith) (omega arith) hole in
    IsHole-fill (i + 1) r.0 v r.1 (omega arith) (omega arith) ends.0 ends.1

insertions-IsSortedBelow :
    (left i : ℕ) (mrs : List MemRange)
    → i + left ≡ length mrs
    → IsSortedBelow i mrs
    → IsSortedBelow (length mrs) (insertions left 1 i mrs)
unfolding insertions
insertions-IsSortedBelow zero i mrs e sorted = λ p q lt qn. sorted p q lt (omega arith)
insertions-IsSortedBelow (suc left) i mrs e sorted =
    let size = insert-length 1 i mrs in
    let rest =
      insertions-IsSortedBelow left (i + 1) (insert 1 i mrs) (omega arith)
        (insert-IsSortedBelow i mrs (omega arith) sorted) in
    λ p q lt qn. rest p q lt (omega arith)

passes-zero : (rounds : ℕ) (mrs : List MemRange) → passes rounds 0 mrs ≡ mrs
unfolding passes
passes-zero zero mrs = refl
passes-zero (suc rounds) mrs = refl

-- The last pass has `h` at 1, and sorts whatever the others leave.
passes-IsSortedBelow :
    (rounds h : ℕ) (mrs : List MemRange)
    → 0 < h
    → h < 2 ^ rounds
    → 2 ≤ length mrs
    → IsSortedBelow (length mrs) (passes rounds h mrs)
unfolding passes
passes-IsSortedBelow zero h mrs p q l = absurd (omega arith)
passes-IsSortedBelow (suc rounds) h mrs p q l =
    let once = insertions_lem (λ m. true) (length mrs - h) h h mrs p (omega arith) in
    elim (lt-cases 1 h) [
      | inl more ↦
          let rest =
            passes-IsSortedBelow rounds (h / 2) (insertions (length mrs - h) h h mrs) (omega arith)
              (omega arith) (omega arith) in
          let running : (h == 0) ≡ false = ground arith in
          rw running (λ a b lt bn. rest a b lt (omega arith))
      | inr last ↦
          let e : h ≡ 1 = omega arith in
          let sorted =
            insertions-IsSortedBelow (length mrs - 1) 1 mrs (omega arith)
              (λ a b lt bn. absurd (omega arith)) in
          rw (e, passes-zero rounds (insertions (length mrs - 1) 1 1 mrs)) sorted
    ]

-- `h` doubles up to the least power of two that is not below `nmr`.
double_lem :
    (rounds nmr h : ℕ)
    → nmr ≤ 2 ^ 31
    → nmr ≤ h * 2 ^ rounds
    → 0 < h
    → h < 2 * nmr
    → (r : ℕ) × (double rounds nmr h ≡ ok r) × (nmr ≤ r) × (r < 2 * nmr)
unfolding double
double_lem zero nmr h small enough pos lt =
    let done : ltb h nmr ≡ false = ground arith in (h, rw done refl, omega arith, lt)
double_lem (suc rounds) nmr h small enough pos lt = elim (Bool-cases (ltb h nmr)) [
  | inl e ↦
      let wraps : u32 (h * 2) ≡ h * 2 = ground arith in
      let again : h * 2 * 2 ^ rounds ≡ 2 * (h * 2 ^ rounds) =
        ap (λ k. k * 2 ^ rounds) (mul_comm h 2) ∙ mul_assoc 2 h (2 ^ rounds) in
      let (r, found, ge, less) =
        double_lem rounds nmr (h * 2) small (omega (arith, mul-pow_double h rounds, again))
          (omega arith) (ground arith) in
      (r, rw e (ap (double rounds nmr) wraps ∙ found), ge, less)
  | inr e ↦ (h, rw e refl, ground arith, lt)
]

-- What the passes from a first gap of `h - 1` leave.
abbrev IsSortOf : List MemRange → List MemRange → Type 0
IsSortOf mrs sorted =
    ((p q : ℕ) → p < q → q < length sorted → start_at sorted p ≤ start_at sorted q)
    × (length sorted ≡ length mrs)
    × ((t : MemRange → Bool) → count t sorted ≡ count t mrs)

passes-IsSortOf :
    (h : ℕ) (mrs : List MemRange)
    → 2 ≤ length mrs
    → length mrs ≤ h
    → h ≤ 2 ^ 32
    → IsSortOf mrs (passes 32 (h - 1) mrs)
passes-IsSortOf h mrs two ge le =
    let sorted = passes-IsSortedBelow 32 (h - 1) mrs (omega arith) (omega arith) two in
    let size = (passes_lem (λ m. true) 32 (h - 1) mrs).0 in
    (λ p q lt ql. sorted p q lt (omega arith), size, λ t. (passes_lem t 32 (h - 1) mrs).1)

-- What the loops come to: the order of the starts.
shellsort_by_start :
    (mrs : List MemRange)
    → length mrs ≤ 2 ^ 31
    → (sorted : List MemRange) × (shellsort mrs ≡ ok sorted)
      × ((p q : ℕ)
          → p < q
          → q < length sorted
          → (range_at sorted p).start ≤ (range_at sorted q).start)
      × (length sorted ≡ length mrs)
      × ((t : MemRange → Bool) → count t sorted ≡ count t mrs)
unfolding shellsort
shellsort_by_start mrs small = elim (Bool-cases (ltb (length mrs) 2)) [
  | inl e ↦ (mrs, rw e refl, λ p q lt ql. absurd (ground arith), refl, λ t. refl)
  | inr e ↦
      let (h, found, ge, lt) =
        double_lem 32 (length mrs) 1 small (omega arith) (omega arith) (ground arith) in
      let gap : sub_w 32 h 1 ≡ h - 1 = ground arith in
      let (sorted, size, kept) = passes-IsSortOf h mrs (ground arith) ge (omega arith) in
      (passes 32 (h - 1) mrs, rw (e, found, gap) refl, sorted, size, kept)
]

-- Two ranges with something in them that do not overlap.
abbrev AreApart : MemRange → MemRange → Type 0
AreApart r r' =
    (0 < r.len) × (0 < r'.len) × ((r.start + r.len ≤ r'.start) ⊎ (r'.start + r'.len ≤ r.start))

-- Of two such ranges the earlier one ends before the later one starts, and before that one ends.
abbrev pub IsInOrder : List MemRange → Type 0
IsInOrder mrs =
    (p q : ℕ)
    → p < q
    → q < length mrs
    → AreApart (range_at mrs p) (range_at mrs q)
    → ((range_at mrs p).start + (range_at mrs p).len ≤ (range_at mrs q).start)
      × ((range_at mrs p).start + (range_at mrs p).len
          < (range_at mrs q).start + (range_at mrs q).len)

-- `shellsort` returns for up to 2 ^ 31 ranges, with the same ranges, each as often as before, in another
-- order: of two nonempty ranges that do not overlap, the one that comes first ends before the other one
-- starts. So these are in the order of increasing ending addresses; in which order two ranges come that
-- overlap is left open.
pub shellsort_lem :
    (mrs : List MemRange)
    → length mrs ≤ 2 ^ 31
    → (sorted : List MemRange) × (shellsort mrs ≡ ok sorted)
      × IsInOrder sorted
      × (length sorted ≡ length mrs)
      × ((t : MemRange → Bool) → count t sorted ≡ count t mrs)
shellsort_lem mrs small =
    let (sorted, done, starts, size, kept) = shellsort_by_start mrs small in
    (
      sorted,
      done,
      λ p q lt ql (some, some', apart). let le = starts p q lt ql in (ground arith, ground arith),
      size,
      kept,
    )
