-- ===== src/Stage1/Bmem/Calls.antt =====
-- Any sequence of calls of the two allocators of stage1/bmem.c, which the rest of stage 1 makes.
use biefircate.Prelude.{
  ℕ, ◌+◌, ◌≤◌, ◌<◌, ◌≡◌, List, [], ◌∷◌, Outcome, ok, All, All-imp, ◌>>=◌, bind_ok,
}
use biefircate.Stage1.Bmem.{State, bmem_alloc, bmem_alloc_boottime}
use biefircate.Stage1.Bmem.Layout.{IsFree}
use biefircate.Stage1.Bmem.Alloc.{IsValid, IsRequest, IsHandedOut, bmem_alloc_lem}
use biefircate.Stage1.Bmem.Boottime.{bmem_alloc_boottime_lem}

pub data Call : Type 0 where
  runtime : ℕ → ℕ → Call
  boottime : ℕ → ℕ → Call

abbrev pub size_of : Call → ℕ
size_of (runtime size align) = size
size_of (boottime size align) = size

abbrev pub align_of : Call → ℕ
align_of (runtime size align) = align
align_of (boottime size align) = align

unfoldable pub make_call : State → Call → Outcome (ℕ × State)
make_call s (runtime size align) = bmem_alloc s size align
make_call s (boottime size align) = bmem_alloc_boottime s size align

-- The bytes that a call handed out: from `addr` on, `size` of them.
pub record Region : Type 0 where
  pub addr : ℕ
  pub size : ℕ

-- The calls in order, with the regions that they return.
unfoldable pub make_calls : State → List Call → Outcome (List Region × State)
make_calls s [] = ok ([], s)
make_calls s (c ∷ cs) = do
  (a, s') ← make_call s c
  (rs, s'') ← make_calls s' cs
  ok (record { addr = a; size = size_of c } ∷ rs, s'')

abbrev pub InRegion : ℕ → Region → Type 0
InRegion x r = (r.addr ≤ x) × (x < r.addr + r.size)

-- No byte is in two of the regions.
abbrev pub IsApart : List Region → Type 0
IsApart [] = Unit
IsApart (r ∷ rs) = All (λ q. (x : ℕ) → InRegion x r → InRegion x q → ⊥) rs × IsApart rs

pub make_call_lem :
    (s s' : State) (c : Call) (a : ℕ)
    → IsValid s
    → IsRequest (align_of c)
    → make_call s c ≡ ok (a, s')
    → IsValid s' × IsHandedOut s s' a (size_of c)
unfolding make_call
make_call_lem s s' (runtime size align) a v r h =
    let l = bmem_alloc_lem s s' size align a v r h in (l.1, l.2)
make_call_lem s s' (boottime size align) a v r h =
    let l = bmem_alloc_boottime_lem s s' size align a v r h in (l.2, l.3)

abbrev region : ℕ → Call → Region
region a c = record { addr = a; size = size_of c }

make_calls_inv :
    (s s' : State) (c : Call) (cs : List Call) (rs : List Region)
    → make_calls s (c ∷ cs) ≡ ok (rs, s')
    → (a : ℕ) × (t : State) × (rest : List Region) × (make_call s c ≡ ok (a, t))
      × (make_calls t cs ≡ ok (rest, s'))
      × (rs ≡ region a c ∷ rest)
unfolding make_calls
make_calls_inv s s' c cs rs h =
    let ((a, t), first, h') = bind_ok (make_call s c) _ h in
    let ((rest, u), later, h'') = bind_ok (make_calls t cs) _ h' in (a, t, rest, first, cc, cc)

-- A sequence of calls of `bmem_alloc` and `bmem_alloc_boottime` from a valid state, each with a
-- power of two up to 2 ^ 31 for its alignment, hands out regions of which no two share a byte. All
-- their bytes were free before the sequence, no byte becomes free in it, and the state is valid
-- after it.
pub make_calls-IsApart :
    (s s' : State) (cs : List Call) (rs : List Region)
    → IsValid s
    → All (λ c. IsRequest (align_of c)) cs
    → make_calls s cs ≡ ok (rs, s')
    → IsApart rs
      × All (λ r. (x : ℕ) → InRegion x r → IsFree x s.blk) rs
      × ((x : ℕ) → IsFree x s'.blk → IsFree x s.blk)
      × IsValid s'
unfolding make_calls
make_calls-IsApart s s' [] rs v q h =
    let e : rs ≡ [] = cc in let g : s' ≡ s = cc in rw (e, g) (tt, tt, λ x p. p, v)
make_calls-IsApart s s' (c ∷ cs) rs v q h =
    let (a, t, rest, first, later, e) = make_calls_inv s s' c cs rs h in
    let (v', out) = make_call_lem s t c a v q.0 first in
    let (apart, free, keeps, last) = make_calls-IsApart t s' cs rest v' q.1 later in
    rw e (
      (All-imp _ _ rest (λ r f x p p'. ((out x).0 p.0 p.1).1 (f x p')) free, apart),
      (λ x p. ((out x).0 p.0 p.1).0, All-imp _ _ rest (λ r f x p. (out x).1 (f x p)) free),
      λ x f. (out x).1 (keeps x f),
      last,
    )
