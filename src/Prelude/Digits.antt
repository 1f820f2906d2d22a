-- ===== src/Prelude/Digits.antt =====
-- `&` and `|` by their binary digits, and on numbers that are put together from two fields of bits.
use Prim.Native.Nat.{
  ℕ, zero, suc, ◌+◌, ◌-◌, ◌*◌, ◌/◌, ◌%◌, ◌^◌, ◌≤◌, ◌<◌, bit_and, bit_or, digits, bit_and-bitwise,
  bit_or-bitwise, min, max,
}
use native.Mathlib.Nat.{pow-suc}
use mathlib.Core.Path.{◌≡◌, refl, sym, ◌∙◌, ap}
use native.Mathlib.Omega.{arith}

-- A round more changes nothing where there are as many rounds as the first number says.
module _ (z : ℕ → ℕ) (f : ℕ → ℕ → ℕ) where
  digits-suc : (rounds x y : ℕ) → x ≤ rounds → digits z f (suc rounds) x y ≡ digits z f rounds x y
  digits-suc rounds zero y fits = elim rounds as (λ r. digits z f (suc r) 0 y ≡ digits z f r 0 y) [
    | zero ↦ refl
    | suc r ↦ refl
  ]
  digits-suc zero (suc x) y fits = elim fits [ ]
  digits-suc (suc rounds) (suc x) y fits =
      ap (λ (t : ℕ). t * 2 + f (suc x % 2) (y % 2))
        (digits-suc rounds (suc x / 2) (y / 2) (omega arith))

  digits_more :
      (extra rounds total x y : ℕ)
      → total ≡ rounds + extra
      → x ≤ rounds
      → digits z f total x y ≡ digits z f rounds x y
  digits_more zero rounds total x y sum fits =
      let same : total ≡ rounds = omega arith in ap (λ t. digits z f t x y) same
  digits_more (suc extra) rounds zero x y sum fits = absurd (omega arith)
  digits_more (suc extra) rounds (suc total) x y sum fits =
      digits-suc total x y (omega arith) ∙ digits_more extra rounds total x y (omega arith) fits

-- One digit of `&`, and of `|`.
pub bit_and-digit : (x y : ℕ) → bit_and x y ≡ bit_and (x / 2) (y / 2) * 2 + min (x % 2) (y % 2)
bit_and-digit zero y = bit_and-bitwise zero y ∙ omega (arith, bit_and-bitwise zero (y / 2))
bit_and-digit (suc x) y =
    let half : ℕ = suc x / 2 in
    let same =
      digits_more (λ _. zero) min (x - half) half x half (y / 2) (omega arith) (omega arith) in
    bit_and-bitwise (suc x) y
    ∙ ap (λ (t : ℕ). t * 2 + min (suc x % 2) (y % 2)) (same ∙ sym (bit_and-bitwise half (y / 2)))

pub bit_or-digit : (x y : ℕ) → bit_or x y ≡ bit_or (x / 2) (y / 2) * 2 + max (x % 2) (y % 2)
bit_or-digit zero y = bit_or-bitwise zero y ∙ omega (arith, bit_or-bitwise zero (y / 2))
bit_or-digit (suc x) y =
    let half : ℕ = suc x / 2 in
    let same =
      digits_more (λ b. b) max (x - half) half x half (y / 2) (omega arith) (omega arith) in
    bit_or-bitwise (suc x) y
    ∙ ap (λ (t : ℕ). t * 2 + max (suc x % 2) (y % 2)) (same ∙ sym (bit_or-bitwise half (y / 2)))

pub bit_and-zero : (x : ℕ) → bit_and x 0 ≡ 0
bit_and-zero x = below (suc x) x (omega arith)
  where
    below : (n x : ℕ) → x < n → bit_and x 0 ≡ 0
    below zero x h = elim h [ ]
    below (suc n) zero h = refl
    below (suc n) (suc x) h =
        bit_and-digit (suc x) 0 ∙ omega (arith, below n (suc x / 2) (omega arith))

pub bit_or-zero : (x : ℕ) → bit_or x 0 ≡ x
bit_or-zero x = below (suc x) x (omega arith)
  where
    below : (n x : ℕ) → x < n → bit_or x 0 ≡ x
    below zero x h = elim h [ ]
    below (suc n) zero h = refl
    below (suc n) (suc x) h =
        bit_or-digit (suc x) 0 ∙ omega (arith, below n (suc x / 2) (omega arith))

pub mul-pow_double : (c k : ℕ) → c * 2 ^ suc k ≡ 2 * (c * 2 ^ k)
mul-pow_double c k = let p = ap (λ (t : ℕ). c * t) (pow-suc 2 k) in omega (arith, p)

-- A field of `k` bits below, and one above it.
pub bit_or_fields :
    (k top low a b : ℕ)
    → low < 2 ^ k
    → b < 2 ^ k
    → bit_or (top * 2 ^ k + low) (a * 2 ^ k + b) ≡ bit_or top a * 2 ^ k + bit_or low b
bit_or_fields zero top low a b h g =
    let e1 : top * 2 ^ 0 + low ≡ top = omega arith in
    let e2 : a * 2 ^ 0 + b ≡ a = omega arith in
    let e3 : low ≡ 0 = omega arith in
    let e4 : b ≡ 0 = omega arith in rw (e1, e2, e3, e4) (omega arith)
bit_or_fields (suc k) top low a b h g = ground (
  arith,
  bit_or-digit (top * 2 ^ suc k + low) (a * 2 ^ suc k + b),
  bit_or-digit low b,
  mul-pow_double top k,
  mul-pow_double a k,
  mul-pow_double (bit_or top a) k,
  pow-suc 2 k,
  bit_or_fields k top (low / 2) a (b / 2) (omega (arith, pow-suc 2 k)) (omega (arith, pow-suc 2 k)),
)

pub bit_and_fields :
    (k top low a b : ℕ)
    → low < 2 ^ k
    → b < 2 ^ k
    → bit_and (top * 2 ^ k + low) (a * 2 ^ k + b) ≡ bit_and top a * 2 ^ k + bit_and low b
bit_and_fields zero top low a b h g =
    let e1 : top * 2 ^ 0 + low ≡ top = omega arith in
    let e2 : a * 2 ^ 0 + b ≡ a = omega arith in
    let e3 : low ≡ 0 = omega arith in
    let e4 : b ≡ 0 = omega arith in rw (e1, e2, e3, e4) (omega arith)
bit_and_fields (suc k) top low a b h g = ground (
  arith,
  bit_and-digit (top * 2 ^ suc k + low) (a * 2 ^ suc k + b),
  bit_and-digit low b,
  mul-pow_double top k,
  mul-pow_double a k,
  mul-pow_double (bit_and top a) k,
  pow-suc 2 k,
  bit_and_fields k top (low / 2) a (b / 2) (omega (arith, pow-suc 2 k))
      (omega (arith, pow-suc 2 k)),
)

-- A mask bounds what it leaves.
pub bit_and-le : (x y : ℕ) → bit_and x y ≤ y
bit_and-le x y = below (suc x) x y (omega arith)
  where
    below : (n x y : ℕ) → x < n → bit_and x y ≤ y
    below zero x y h = elim h [ ]
    below (suc n) zero y h = omega (arith, bit_and-digit 0 y, bit_and-bitwise 0 (y / 2))
    below (suc n) (suc x) y h =
        omega (arith, bit_and-digit (suc x) y, below n (suc x / 2) (y / 2) (omega arith))
