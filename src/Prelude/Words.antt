-- ===== src/Prelude/Words.antt =====
-- Machine words as native numbers: the casts, the wrapping subtraction, and `&` with a mask.
use native.Mathlib.Nat.{
  pow-suc, one-le-pow, mod-eq_of_lt, mod-lt, div-add-mod, div-add-mod', mul-mod_left,
  mul-le-mul_right,
}
use native.Mathlib.Decide.{dec_lt}
use Prim.Native.Nat.{ℕ, zero, suc, ◌+◌, ◌-◌, ◌*◌, ◌/◌, ◌%◌, ◌^◌, ◌≤◌, ◌<◌, bit_and}
use mathlib.Core.Path.{◌≡◌, sym, ◌∙◌, ap, ap₂, subst₂}
use native.Mathlib.Omega.{arith}
use biefircate.Prelude.Digits.{bit_and-digit, bit_and-zero, mul-pow_double}

abbrev pub u8 : ℕ → ℕ
u8 n = n % 2 ^ 8

abbrev pub u16 : ℕ → ℕ
u16 n = n % 2 ^ 16

abbrev pub u32 : ℕ → ℕ
u32 n = n % 2 ^ 32

abbrev pub u64 : ℕ → ℕ
u64 n = n % 2 ^ 64

-- `a - b` on a word of `w` bits, for `b < 2 ^ w`.
abbrev pub sub_w : ℕ → ℕ → ℕ → ℕ
sub_w w a b = (a + 2 ^ w - b) % 2 ^ w

-- `-a` on a word of `w` bits, for `a < 2 ^ w`.
abbrev pub neg_w : ℕ → ℕ → ℕ
neg_w w a = (2 ^ w - a) % 2 ^ w

pow_add : (k d : ℕ) → 2 ^ (k + d) ≡ 2 ^ k * 2 ^ d
pow_add zero d = let e : 0 + d ≡ d = omega arith in omega (arith, ap (λ (t : ℕ). 2 ^ t) e)
pow_add (suc k) d =
    let e : suc k + d ≡ suc (k + d) = omega arith in
    grind (arith, ap (λ (t : ℕ). 2 ^ t) e, pow-suc 2 k, pow-suc 2 (k + d), pow_add k d)

low_fields : (k top low : ℕ) → low < 2 ^ k → bit_and (top * 2 ^ k + low) (2 ^ k - 1) ≡ low
low_fields zero top low small = ground (arith, bit_and-zero top)
low_fields (suc k) top low small =
    let rest = low_fields k top (low / 2) (omega (arith, pow-suc 2 k)) in
    let whole = top * 2 ^ suc k + low in
    ground (arith, rest, mul-pow_double top k, pow-suc 2 k, bit_and-digit whole (2 ^ suc k - 1))

-- A mask of the low `k` bits is the remainder by `2 ^ k`.
pub bit_and_low : (k a : ℕ) → bit_and a (2 ^ k - 1) ≡ a % 2 ^ k
bit_and_low k a = ground (arith, one-le-pow k 2, low_fields k (a / 2 ^ k) (a % 2 ^ k))

-- A mask of the `d` bits from `k` on clears the low `k` bits.
high_fields :
    (k d q r : ℕ)
    → r < 2 ^ k
    → q < 2 ^ d
    → bit_and (q * 2 ^ k + r) ((2 ^ d - 1) * 2 ^ k) ≡ q * 2 ^ k
high_fields zero d q r h g =
    let e : q * 2 ^ 0 + r ≡ q = omega arith in
    let m : (2 ^ d - 1) * 2 ^ 0 ≡ 2 ^ d - 1 = omega arith in
    rw (e, m) (omega (arith, bit_and_low d q, mod-eq_of_lt g))
high_fields (suc k) d q r h g = ground (
  arith,
  bit_and-digit (q * 2 ^ suc k + r) ((2 ^ d - 1) * 2 ^ suc k),
  mul-pow_double q k,
  mul-pow_double (2 ^ d - 1) k,
  pow-suc 2 k,
  high_fields k d q (r / 2) (omega arith) g,
)

-- What rounding down by a mask gives: the multiple of `align` next below `a`.
pub record IsAlignedDown (a align r : ℕ) : Type 0 where
  pub below : r ≤ a
  pub near : a < r + align
  pub multiple : r % align ≡ 0

-- An alignment that fits a word: a power of two, `2 ^ k` with `k ≤ w`.
abbrev pub IsAlign : ℕ → ℕ → Type 0
IsAlign w align = (k : ℕ) × (d : ℕ) × (k + d ≡ w) × (align ≡ 2 ^ k)

div-lt : (k d a : ℕ) → a < 2 ^ (k + d) → a / 2 ^ k < 2 ^ d
div-lt k d a h =
    grind (arith, pow_add k d, div-add-mod a (2 ^ k), mod-lt a (one-le-pow k 2 (omega arith)))

pred-mul : (x p : ℕ) → 0 < x → (x - 1) * p + p ≡ x * p
pred-mul zero p h = absurd (omega arith)
pred-mul (suc x) p h = let e : suc x - 1 ≡ x = omega arith in rw e (omega arith)

mask_of_neg : (k d : ℕ) → (2 ^ (k + d) - 2 ^ k) % 2 ^ (k + d) ≡ (2 ^ d - 1) * 2 ^ k
mask_of_neg k d =
    let size : 2 ^ (k + d) - 2 ^ k ≡ (2 ^ d - 1) * 2 ^ k =
      omega (arith, pow_add k d, pred-mul (2 ^ d) (2 ^ k) (one-le-pow d 2 (omega arith))) in
    let small : 2 ^ (k + d) - 2 ^ k < 2 ^ (k + d) =
      omega (arith, one-le-pow k 2 (omega arith), one-le-pow (k + d) 2 (omega arith)) in
    mod-eq_of_lt small ∙ size

bit_and-neg_pow :
    (k d a : ℕ) → a < 2 ^ (k + d) → bit_and a (neg_w (k + d) (2 ^ k)) ≡ a / 2 ^ k * 2 ^ k
bit_and-neg_pow k d a h =
    let split : a ≡ a / 2 ^ k * 2 ^ k + a % 2 ^ k = sym (div-add-mod' a (2 ^ k)) in
    let fits : a % 2 ^ k < 2 ^ k = mod-lt a (one-le-pow k 2 (omega arith)) in
    ap₂ bit_and split (mask_of_neg k d)
    ∙ high_fields k d (a / 2 ^ k) (a % 2 ^ k) fits (div-lt k d a h)

-- `a & -align`, with `-align` as the code's word has it.
pub bit_and-neg :
    (w a align : ℕ)
    → a < 2 ^ w
    → IsAlign w align
    → IsAlignedDown a align (bit_and a (neg_w w align))
bit_and-neg w a align h (k, d, e, f) =
    subst₂ (λ v al. IsAlignedDown a al (bit_and a (neg_w v al))) e (sym f)
      (rw (bit_and-neg_pow k d a (rw e h)) (record {
        below = omega (arith, div-add-mod' a (2 ^ k));
        near = omega (arith, div-add-mod' a (2 ^ k), mod-lt a (one-le-pow k 2 (omega arith)));
        multiple = mul-mod_left (a / 2 ^ k) (2 ^ k);
      }))

-- It is the highest multiple that is not above `a`.
pub IsAlignedDown-max : (a align r q : ℕ) → IsAlignedDown a align r → q * align ≤ a → q * align ≤ r
IsAlignedDown-max a align r q h le =
    let whole : r ≡ r / align * align = omega (arith, div-add-mod' r align, h.multiple) in
    elim (dec_lt (r / align) q) [
      | yes p ↦ absurd (omega (arith, h.near, mul-le-mul_right align p))
      | no p ↦ omega (arith, mul-le-mul_right {m = q} {n = r / align} align (omega arith))
    ]

-- A multiple of `align` that is less than `align` above another is not above it.
pub multiple-le : (align r q : ℕ) → r % align ≡ 0 → r < q * align + align → r ≤ q * align
multiple-le align r q m lt =
    let whole : r ≡ r / align * align = omega (arith, div-add-mod' r align, m) in
    elim (dec_lt q (r / align)) [
      | yes p ↦ absurd (omega (arith, mul-le-mul_right align p))
      | no p ↦ omega (arith, mul-le-mul_right {m = r / align} {n = q} align (omega arith))
    ]
