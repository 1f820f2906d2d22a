-- ===== src/Stage1/Util/Cksum.antt =====
-- The checksums of stage1/util.c make sums come out as 0.
use biefircate.Prelude.{
  ℕ, zero, suc, ◌+◌, ◌*◌, ◌%◌, ◌≤◌, ◌<◌, ◌≡◌, ◌≢◌, inl, inr, refl, ap, sym, ◌∙◌, List, [], ◌∷◌,
  arith, length, length-set, get_or, get_or-set_self, get_or-set_ne, set, All, ok, lt-cases,
}
use biefircate.Prelude.Words.{sub_w}
use biefircate.Stage1.Util.{read8, subtract_bytes, compute_cksum, update_cksum}

abbrev pub IsByte : ℕ → Type 0
IsByte b = b < 256

abbrev pub byte_at : List ℕ → ℕ → ℕ
byte_at buf p = get_or buf p 0

-- The sum of the `n` bytes from index `p` on.
unfoldable pub sum : List ℕ → ℕ → ℕ → ℕ
sum buf p zero = 0
sum buf p (suc n) = byte_at buf p + sum buf (p + 1) n

pub read8-byte_at : (buf : List ℕ) (p : ℕ) → p < length buf → read8 buf p ≡ ok (byte_at buf p)
unfolding read8
read8-byte_at [] p l = absurd (omega arith)
read8-byte_at (b ∷ buf) zero l = refl
read8-byte_at (b ∷ buf) (suc p) l = read8-byte_at buf p (omega arith)

pub byte_at-IsByte : (buf : List ℕ) (p : ℕ) → All IsByte buf → IsByte (byte_at buf p)
byte_at-IsByte [] p h = omega arith
byte_at-IsByte (b ∷ buf) zero h = h.0
byte_at-IsByte (b ∷ buf) (suc p) h = byte_at-IsByte buf p h.1

subtract_bytes_lem :
    (buf : List ℕ) (p n cksum : ℕ)
    → All IsByte buf
    → p + n ≤ length buf
    → IsByte cksum
    → subtract_bytes buf p n cksum ≡ ok ((cksum + 255 * sum buf p n) % 256)
unfolding subtract_bytes sum
subtract_bytes_lem buf p zero cksum h l c = ap ok (omega arith)
subtract_bytes_lem buf p (suc n) cksum h l c =
    let b = byte_at-IsByte buf p h in
    let rest =
      subtract_bytes_lem buf (p + 1) n (sub_w 8 cksum (byte_at buf p)) h (omega arith)
        (omega arith) in
    rw (read8-byte_at buf p (omega arith)) (rest ∙ ap ok (omega (arith, b)))

-- `compute_cksum` reads only the `n` bytes that it is given, and returns the byte that makes their
-- sum a multiple of 256.
pub compute_cksum_lem :
    (buf : List ℕ) (p n : ℕ)
    → All IsByte buf
    → p + n ≤ length buf
    → (c : ℕ) × (compute_cksum buf p n ≡ ok c) × (c < 256) × ((sum buf p n + c) % 256 ≡ 0)
unfolding compute_cksum
compute_cksum_lem buf p n h l = (
  (0 + 255 * sum buf p n) % 256,
  subtract_bytes_lem buf p n 0 h l (omega arith),
  omega arith,
  omega arith,
)

-- A checksum is 0 just when the sum is a multiple of 256.
pub compute_cksum-zero :
    (buf : List ℕ) (p n : ℕ)
    → All IsByte buf
    → p + n ≤ length buf
    → sum buf p n % 256 ≡ 0
    → compute_cksum buf p n ≡ ok 0
unfolding compute_cksum
compute_cksum-zero buf p n h l e =
    subtract_bytes_lem buf p n 0 h l (omega arith) ∙ ap ok (omega arith)

sum-set_out : (buf : List ℕ) (p n at v : ℕ) → at < p → sum (set buf at v) p n ≡ sum buf p n
unfolding sum
sum-set_out buf p zero at v lt = refl
sum-set_out buf p (suc n) at v lt =
    let rest = sum-set_out buf (p + 1) n at v (omega arith) in
    let here = get_or-set_ne buf at p v 0 (λ e. omega arith) in omega arith

sum-set :
    (buf : List ℕ) (p n at v : ℕ)
    → p ≤ at
    → at < p + n
    → at < length buf
    → sum (set buf at v) p n + byte_at buf at ≡ sum buf p n + v
unfolding sum
sum-set buf p zero at v lo hi l = absurd (omega arith)
sum-set buf p (suc n) at v lo hi l = elim (lt-cases p at) [
  | inl lt ↦
      let rest = sum-set buf (p + 1) n at v (omega arith) (omega arith) l in
      let here = get_or-set_ne buf at p v 0 (λ e. omega arith) in omega arith
  | inr ge ↦
      let e : p ≡ at = omega arith in
      let rest = sum-set_out buf (p + 1) n at v (omega arith) in
      let here = get_or-set_self buf at v 0 l in rw e (omega (arith, rw e at rest))
]

set-IsByte : (buf : List ℕ) (i v : ℕ) → All IsByte buf → IsByte v → All IsByte (set buf i v)
set-IsByte [] i v h k = tt
set-IsByte (b ∷ buf) zero v h k = (k, h.1)
set-IsByte (b ∷ buf) (suc i) v h k = (h.0, set-IsByte buf i v h.1 k)

-- After `update_cksum`, with the checksum byte among the bytes that are summed, the checksum of
-- these bytes is 0, and no other byte has changed.
pub update_cksum_lem :
    (buf : List ℕ) (p n at : ℕ)
    → All IsByte buf
    → p + n ≤ length buf
    → p ≤ at
    → at < p + n
    → (buf' : List ℕ) × (update_cksum buf p n at ≡ ok buf')
      × (compute_cksum buf' p n ≡ ok 0)
      × ((q : ℕ) → q ≢ at → byte_at buf' q ≡ byte_at buf q)
unfolding update_cksum
update_cksum_lem buf p n at h l lo hi =
    let blank = set buf at 0 in
    let size = length-set buf at 0 in
    let bytes = set-IsByte buf at 0 h (omega arith) in
    let (c, found, small, zero_sum) = compute_cksum_lem blank p n bytes (omega arith) in
    let now = sum-set blank p n at c lo hi (omega arith) in
    let was = get_or-set_self buf at 0 0 (omega arith) in
    (
      set blank at c,
      rw found refl,
      compute_cksum-zero (set blank at c) p n (set-IsByte blank at c bytes small)
          (omega (arith, length-set blank at c)) (omega arith),
      λ q ne.
          get_or-set_ne blank at q c 0 (λ e. ne (sym e))
          ∙ get_or-set_ne buf at q 0 0 (λ e. ne (sym e)),
    )
