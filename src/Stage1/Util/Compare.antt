-- ===== src/Stage1/Util/Compare.antt =====
-- memcmp of stage1/util.c orders byte strings by their first difference.
use biefircate.Prelude.{
  ℕ, zero, suc, ◌+◌, ◌≤◌, ◌<◌, ◌≡◌, inl, inr, refl, List, arith, length, ltb, Bool-cases, ok,
}
use biefircate.Stage1.Util.{Order, memcmp}
use biefircate.Stage1.Util.Cksum.{byte_at, read8-byte_at}

-- The bytes at `k` places of two strings agree.
abbrev pub IsEqualTo : List ℕ → ℕ → ℕ → ℕ → Type 0
IsEqualTo buf p1 p2 k = (i : ℕ) → i < k → byte_at buf (p1 + i) ≡ byte_at buf (p2 + i)

-- What an answer of `memcmp` tells.
abbrev pub Tells : List ℕ → ℕ → ℕ → ℕ → Order → Type 0
Tells buf p1 p2 n Order.same = IsEqualTo buf p1 p2 n
Tells buf p1 p2 n Order.less =
    (k : ℕ) × (k < n) × IsEqualTo buf p1 p2 k × (byte_at buf (p1 + k) < byte_at buf (p2 + k))
Tells buf p1 p2 n Order.more =
    (k : ℕ) × (k < n) × IsEqualTo buf p1 p2 k × (byte_at buf (p2 + k) < byte_at buf (p1 + k))

module _ (buf : List ℕ) (p1 p2 : ℕ) (e : byte_at buf p1 ≡ byte_at buf p2) where
  IsEqualTo-suc : (k : ℕ) → IsEqualTo buf (p1 + 1) (p2 + 1) k → IsEqualTo buf p1 p2 (suc k)
  IsEqualTo-suc k h zero lt =
      let z1 : p1 + 0 ≡ p1 = omega arith in let z2 : p2 + 0 ≡ p2 = omega arith in rw (z1, z2) e
  IsEqualTo-suc k h (suc i) lt =
      let s1 : p1 + suc i ≡ p1 + 1 + i = omega arith in
      let s2 : p2 + suc i ≡ p2 + 1 + i = omega arith in rw (s1, s2) (h i (omega arith))

  Tells-suc : (n : ℕ) (r : Order) → Tells buf (p1 + 1) (p2 + 1) n r → Tells buf p1 p2 (suc n) r
  Tells-suc n Order.same h = IsEqualTo-suc n h
  Tells-suc n Order.less (k, lt, eq, differ) =
      let s1 : p1 + suc k ≡ p1 + 1 + k = omega arith in
      let s2 : p2 + suc k ≡ p2 + 1 + k = omega arith in
      (suc k, omega arith, IsEqualTo-suc k eq, rw (s1, s2) differ)
  Tells-suc n Order.more (k, lt, eq, differ) =
      let s1 : p1 + suc k ≡ p1 + 1 + k = omega arith in
      let s2 : p2 + suc k ≡ p2 + 1 + k = omega arith in
      (suc k, omega arith, IsEqualTo-suc k eq, rw (s1, s2) differ)

-- `memcmp` reads only the `n` bytes of either string, and returns 0 if they agree, and otherwise
-- the order of the first two bytes that differ.
pub memcmp_lem :
    (buf : List ℕ) (p1 p2 n : ℕ)
    → p1 + n ≤ length buf
    → p2 + n ≤ length buf
    → (r : Order) × (memcmp buf p1 p2 n ≡ ok r) × Tells buf p1 p2 n r
unfolding memcmp
memcmp_lem buf p1 p2 zero l1 l2 = (Order.same, refl, λ i lt. absurd (omega arith))
memcmp_lem buf p1 p2 (suc n) l1 l2 =
    let here1 = read8-byte_at buf p1 (omega arith) in
    let here2 = read8-byte_at buf p2 (omega arith) in
    let z1 : p1 + 0 ≡ p1 = omega arith in
    let z2 : p2 + 0 ≡ p2 = omega arith in
    elim (Bool-cases (ltb (byte_at buf p1) (byte_at buf p2))) [
      | inl lt ↦ (
        Order.less,
        rw (here1, here2, lt) refl,
        (0, omega arith, λ i none. absurd (omega arith), rw (z1, z2) (ground arith)),
      )
      | inr ge ↦ elim (Bool-cases (ltb (byte_at buf p2) (byte_at buf p1))) [
        | inl gt ↦ (
          Order.more,
          rw (here1, here2, ge, gt) refl,
          (0, omega arith, λ i none. absurd (omega arith), rw (z1, z2) (ground arith)),
        )
        | inr le ↦
            let (r, found, tells) =
              memcmp_lem buf (p1 + 1) (p2 + 1) n (omega arith) (omega arith) in
            (r, rw (here1, here2, ge, le) found, Tells-suc buf p1 p2 (ground arith) n r tells)
      ]
    ]
