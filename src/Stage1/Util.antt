-- ===== src/Stage1/Util.antt =====
-- stage1/util.c: comparison and checksums. Memory is a list of bytes, a pointer an index into it; a
-- read outside it is a fault.
pub mod Cksum
pub mod Compare
use biefircate.Prelude.{
  ℕ, zero, suc, ◌+◌, ◌-◌, ◌*◌, ◌^◌, ◌%◌, Bool, true, false, Option, none, some, List, [], ◌∷◌,
  get_elem?, set, ltb, if◌then◌else◌, Outcome, ok, stop, Stop, ◌>>=◌,
}
use biefircate.Prelude.Words.{sub_w}

-- `*p` for bytes and for little-endian words.
unfoldable pub read8 : List ℕ → ℕ → Outcome ℕ
read8 buf p = elim (get_elem? buf p) [ none ↦ stop Stop.fault | some b ↦ ok b ]

unfoldable pub read16 : List ℕ → ℕ → Outcome ℕ
read16 buf p = read8 buf p >>= λ low. read8 buf (p + 1) >>= λ high. ok (low + high * 2 ^ 8)

unfoldable pub read32 : List ℕ → ℕ → Outcome ℕ
read32 buf p = read16 buf p >>= λ low. read16 buf (p + 2) >>= λ high. ok (low + high * 2 ^ 16)

-- What `memcmp` gives: -1, 0 or +1.
pub data Order : Type 0 where
  less same more : Order

-- `memcmp(s1, s2, n)`.
unfoldable pub memcmp : List ℕ → ℕ → ℕ → ℕ → Outcome Order
memcmp buf p1 p2 zero = ok Order.same
memcmp buf p1 p2 (suc n) =
    let rest = memcmp buf (p1 + 1) (p2 + 1) n in
    read8 buf p1 >>= λ c1. read8 buf p2 >>= λ c2.
    if ltb c1 c2 then ok Order.less else if ltb c2 c1 then ok Order.more else rest

-- The loop of `compute_cksum`.
unfoldable pub subtract_bytes : List ℕ → ℕ → ℕ → ℕ → Outcome ℕ
subtract_bytes buf p zero cksum = ok cksum
subtract_bytes buf p (suc n) cksum =
    read8 buf p >>= λ b. subtract_bytes buf (p + 1) n (sub_w 8 cksum b)

-- `compute_cksum(buf, n)`, for a buffer from index `p` on.
unfoldable pub compute_cksum : List ℕ → ℕ → ℕ → Outcome ℕ
compute_cksum buf p n = subtract_bytes buf p n 0

-- `update_cksum(buf, n, p_cksum)`, where `p_cksum` is index `at`: the memory after it.
unfoldable pub update_cksum : List ℕ → ℕ → ℕ → ℕ → Outcome (List ℕ)
update_cksum buf p n at =
    compute_cksum (set buf at 0) p n >>= λ cksum. ok (set (set buf at 0) at cksum)
