-- ===== src/Stage2/Va/Ranges.antt =====
-- The unused virtual address ranges of stage2/mem.c as a set of addresses.
use biefircate.Prelude.{
  ℕ, zero, suc, ◌+◌, ◌-◌, ◌^◌, ◌%◌, ◌≤◌, ◌<◌, ◌≡◌, inl, inr, refl, ◌∙◌, Bool, true, false, not,
  ◌&&◌, ◌||◌, some, List, [], ◌∷◌, arith, ltb, leb, Bool-cases, length, set, get_or-set_self,
}
use biefircate.Stage2.Vm.{VaRange}
use biefircate.Stage2.Va.{no_va, va_at, va_scan, insert_after}

-- Whole pages, not the first one, up to 4 GiB.
abbrev pub IsPages : VaRange → Type 0
IsPages vr =
    (1 ≤ vr.start) × (vr.start % 4096 ≡ 0) × (vr.len % 4096 ≡ 0) × (vr.start + vr.len ≤ 2 ^ 32)

abbrev pub covers : VaRange → ℕ → Bool
covers vr x = leb vr.start x && ltb x (vr.start + vr.len)

-- An address is unused.
unfoldable pub is_unused : ℕ → List VaRange → Bool
is_unused x [] = false
is_unused x (vr ∷ vrs) = covers vr x || is_unused x vrs

-- The ranges do not overlap; their order does not matter, and they can be empty.
abbrev pub IsSpace : List VaRange → Type 0
IsSpace [] = Unit
IsSpace (vr ∷ vrs) =
    IsPages vr × ((x : ℕ) → covers vr x ≡ true → is_unused x vrs ≡ false) × IsSpace vrs

pub va_at-IsPages :
    (i : ℕ) (vrs : List VaRange) → IsSpace vrs → i < length vrs → IsPages (va_at vrs i)
va_at-IsPages i [] m l = absurd (omega arith)
va_at-IsPages zero (vr ∷ vrs) m l = m.0
va_at-IsPages (suc i) (vr ∷ vrs) m l = va_at-IsPages i vrs m.2 (omega arith)

-- Every address of a range is unused.
pub is_unused-va_at :
    (i x : ℕ) (vrs : List VaRange)
    → i < length vrs
    → (va_at vrs i).start ≤ x
    → x < (va_at vrs i).start + (va_at vrs i).len
    → is_unused x vrs ≡ true
unfolding is_unused
is_unused-va_at i x [] l lo hi = absurd (omega arith)
is_unused-va_at zero x (vr ∷ vrs) l lo hi = ground arith
is_unused-va_at (suc i) x (vr ∷ vrs) l lo hi = ground (arith, is_unused-va_at i x vrs)

pub is_unused-bounds :
    (x : ℕ) (vrs : List VaRange) → IsSpace vrs → is_unused x vrs ≡ true → (4096 ≤ x) × (x < 2 ^ 32)
unfolding is_unused
is_unused-bounds x [] m h = cc
is_unused-bounds x (vr ∷ vrs) (pages, apart, m) h = elim (Bool-cases (is_unused x vrs)) [
  | inl later ↦ is_unused-bounds x vrs m later
  | inr now ↦ (ground (arith, pages), ground (arith, pages))
]

-- Whole pages are taken off the upper end of a range.
pub shrink_lem :
    (i sz : ℕ) (vrs : List VaRange)
    → IsSpace vrs
    → i < length vrs
    → sz ≤ (va_at vrs i).len
    → sz % 4096 ≡ 0
    → let vr = va_at vrs i in
      let vrs' = set vrs i (record vr { len = vr.len - sz }) in
      IsSpace vrs'
      × ((x : ℕ)
          → is_unused x vrs' ≡ (
              is_unused x vrs
              && not (leb (vr.start + (vr.len - sz)) x && ltb x (vr.start + vr.len))))
unfolding is_unused
shrink_lem i sz [] m l fits whole = absurd (omega arith)
shrink_lem zero sz (vr ∷ vrs) ((low, m1, m2, top), apart, m) l fits whole = (
  (
    (low, m1, omega (arith, m2, fits), omega (arith, top, fits)),
    λ x h. apart x (ground (arith, fits)),
    m,
  ),
  λ x. ground (arith, apart x, fits),
)
shrink_lem (suc i) sz (vr ∷ vrs) (pages, apart, m) l fits whole =
    let (m', law) = shrink_lem i sz vrs m (omega arith) fits whole in
    (
      (pages, λ x h. law x ∙ rw (apart x h) refl, m'),
      λ x. elim (Bool-cases (covers vr x)) [
        | inl e ↦
            let gone = apart x e in
            let out : (leb ((va_at vrs i).start + ((va_at vrs i).len - sz)) x
                  && ltb x ((va_at vrs i).start + (va_at vrs i).len))
                ≡ false =
              ground (arith, is_unused-va_at i x vrs (omega arith)) in
            rw (law x, gone, e, out) refl
        | inr e ↦ rw (law x, e) refl
      ],
    )

-- A range takes in a block that is in use.
pub grow_lem :
    (i : ℕ) (vr' : VaRange) (block : ℕ → Bool) (vrs : List VaRange)
    → IsSpace vrs
    → i < length vrs
    → IsPages vr'
    → ((x : ℕ) → covers vr' x ≡ (covers (va_at vrs i) x || block x))
    → ((x : ℕ) → block x ≡ true → is_unused x vrs ≡ false)
    → IsSpace (set vrs i vr')
      × ((x : ℕ) → is_unused x (set vrs i vr') ≡ (is_unused x vrs || block x))
unfolding is_unused
grow_lem i vr' block [] m l pages law clear = absurd (omega arith)
grow_lem zero vr' block (vr ∷ vrs) (old, apart, m) l pages law clear =
    ((pages, λ x h. ground (arith, law x, h, apart x, clear x), m), λ x. ground (arith, law x))
grow_lem (suc i) vr' block (vr ∷ vrs) (old, apart, m) l pages law clear =
    let (m', rest) =
      grow_lem i vr' block vrs m (omega arith) pages law (λ x h. ground (arith, clear x h)) in
    ((old, λ x h. ground (arith, rest x, apart x h, clear x, h), m'), λ x. ground (arith, rest x))

-- A block that is in use becomes a range of its own.
pub insert_after_lem :
    (i : ℕ) (vr' : VaRange) (vrs : List VaRange)
    → IsSpace vrs
    → i < length vrs
    → IsPages vr'
    → ((x : ℕ) → covers vr' x ≡ true → is_unused x vrs ≡ false)
    → IsSpace (insert_after vrs i vr')
      × ((x : ℕ) → is_unused x (insert_after vrs i vr') ≡ (is_unused x vrs || covers vr' x))
unfolding is_unused insert_after
insert_after_lem i vr' [] m l pages clear = absurd (omega arith)
insert_after_lem zero vr' (vr ∷ vrs) (old, apart, m) l pages clear = (
  (old, λ x h. ground (arith, h, apart x h, clear x), (pages, λ x h. ground (arith, clear x h), m)),
  λ x. ground arith,
)
insert_after_lem (suc i) vr' (vr ∷ vrs) (old, apart, m) l pages clear =
    let (m', rest) =
      insert_after_lem i vr' vrs m (omega arith) pages (λ x h. ground (arith, clear x h)) in
    ((old, λ x h. ground (arith, rest x, apart x h, clear x, h), m'), λ x. ground (arith, rest x))

pub va_at-set :
    (vrs : List VaRange) (i : ℕ) (vr : VaRange) → i < length vrs → va_at (set vrs i vr) i ≡ vr
va_at-set vrs i vr l = get_or-set_self vrs i vr no_va l

-- The scan finds a range that has room.
pub va_scan_found :
    (vrs : List VaRange) (sz n i : ℕ)
    → va_scan vrs sz n ≡ some i
    → (i < n) × (sz ≤ (va_at vrs i).len)
unfolding va_scan
va_scan_found vrs sz zero i h = cc
va_scan_found vrs sz (suc n) i h = ground (arith, va_scan_found vrs sz n i)
