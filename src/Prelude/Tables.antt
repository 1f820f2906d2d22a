-- ===== src/Prelude/Tables.antt =====
-- Facts about the numbers below a bound, checked by going through all of them.
use Prim.Native.Nat.{ℕ, zero, suc, ◌<◌}
use mathlib.Core.Path.{◌≡◌, refl}
use mathlib.Core.Bool.{Bool, true, ◌&&◌}
use native.Mathlib.Omega.{arith}

unfoldable pub holds_below : ℕ → (ℕ → Bool) → Bool
holds_below zero test = true
holds_below (suc n) test = test n && holds_below n test

pub holds_below-at :
    (test : ℕ → Bool) (bound x : ℕ) → x < bound → holds_below bound test ≡ true → test x ≡ true
unfolding holds_below
holds_below-at test zero x lt h = elim lt [ ]
holds_below-at test (suc n) x lt h = ground (arith, holds_below-at test n x)

pub holds_below-intro :
    (test : ℕ → Bool) (bound : ℕ)
    → ((x : ℕ) → x < bound → test x ≡ true)
    → holds_below bound test ≡ true
unfolding holds_below
holds_below-intro test zero h = refl
holds_below-intro test (suc n) h =
    let first = h n (omega arith) in
    let rest = holds_below-intro test n (λ x lt. h x (omega (arith, lt))) in rw (first, rest) refl
