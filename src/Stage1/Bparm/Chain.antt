-- ===== src/Stage1/Bparm/Chain.antt =====
-- The nodes that stage1/bparm.c links are a list in memory, and adding a parameter appends it.
use biefircate.Prelude.{
  ℕ, ◌+◌, ◌≡◌, ◌≢◌, ◌⊎◌, inl, inr, refl, ◌∙◌, ap, ap₂, subst, Option, none, some, List, [], ◌∷◌,
  ◌++◌, arith, ok, ◌>>=◌, bind_ok, All, Bool-cases, ◌==◌, if◌then◌else◌, true, false, Option-cases,
  sym, All-append, All-imp, All-last,
}
use biefircate.Bparams.{Bparm, Bdat, MemRange, bp_mrng, sizeof_mem_range}
use biefircate.Stage1.Bmem
use biefircate.Stage1.Bmem.{bmem_alloc_boottime, page_size}
use biefircate.Stage1.Bmem.Layout.{IsFree, IsFree-above}
use biefircate.Stage1.Bmem.Alloc.{IsValid, IsRequest, IsHandedOut}
use biefircate.Stage1.Bmem.Boottime.{bmem_alloc_boottime_lem}
use biefircate.Stage1.Bparm.{
  Node, Nodes, State, store, set_next, fill, link, sizeof_bparm, sizeof_ptr, bparm_add,
  bparm_add_mem_range,
}

-- The parameters with the addresses of their nodes.
abbrev pub Params : Type 0
Params = List (ℕ × Bparm)

-- From `p` the `next` pointers lead through these nodes, and the last one's is `q`.
abbrev pub IsSegment : Nodes → ℕ → Params → ℕ → Type 0
IsSegment m p [] q = p ≡ q
IsSegment m p ((a, b) ∷ ps) q =
    (p ≡ a) × (a ≢ 0) × (n : ℕ) × (m a ≡ some (record { next = n; param = b })) × IsSegment m n ps q

abbrev pub last_addr : ℕ → Params → ℕ
last_addr d [] = d
last_addr d ((a, b) ∷ ps) = last_addr a ps

abbrev pub IsAbsent : ℕ → Params → Type 0
IsAbsent a ps = All (λ p. p.0 ≢ a) ps

abbrev pub IsDistinct : Params → Type 0
IsDistinct [] = Unit
IsDistinct ((a, b) ∷ ps) = IsAbsent a ps × IsDistinct ps

-- The list in memory is `ps`, first to last; its nodes lie in memory that has been handed out.
pub record Holds (s : State) (ps : Params) : Type 0 where
  pub valid : IsValid s.bmem
  pub chain : IsSegment s.node s.bp_head ps 0
  pub tail : (s.bp_head ≡ 0) ⊎ (s.bp_tail ≡ last_addr 0 ps)
  pub distinct : IsDistinct ps
  pub taken : All (λ p. ¬ (IsFree p.0 s.bmem.blk)) ps

store-ne : (m : Nodes) (a x : ℕ) (n : Node) → x ≢ a → store m a n x ≡ m x
store-ne m a x n h = ground arith

-- A write elsewhere leaves the list alone.
store-IsSegment :
    (m : Nodes) (a : ℕ) (n : Node) (p q : ℕ) (ps : Params)
    → IsAbsent a ps
    → IsSegment m p ps q
    → IsSegment (store m a n) p ps q
store-IsSegment m a n p q [] h g = g
store-IsSegment m a n p q ((x, b) ∷ ps) h (e, ne, k, at, rest) =
    (e, ne, k, store-ne m a x n h.0 ∙ at, store-IsSegment m a n k q ps h.1 rest)

set_next-ne : (m : Nodes) (l q x : ℕ) → x ≢ l → set_next m l q x ≡ m x
set_next-ne m l q x h = ground arith

last_addr-ne : (a d : ℕ) (ps : Params) → d ≢ a → IsAbsent a ps → last_addr d ps ≢ a
last_addr-ne a d [] h g = h
last_addr-ne a d ((x, b) ∷ ps) h g = last_addr-ne a x ps g.0 g.1

-- Linking the last node leads the list on to `q'`.
set_next-IsSegment :
    (m : Nodes) (p q q' a : ℕ) (b : Bparm) (ps : Params)
    → IsDistinct ((a, b) ∷ ps)
    → IsSegment m p ((a, b) ∷ ps) q
    → IsSegment (set_next m (last_addr a ps) q') p ((a, b) ∷ ps) q'
set_next-IsSegment m p q q' a b [] u (e, ne, k, at, rest) = (e, ne, q', ground (arith, at), refl)
set_next-IsSegment m p q q' a b ((x, c) ∷ ps) u (e, ne, k, at, rest) = (
  e,
  ne,
  k,
  set_next-ne m (last_addr x ps) q' a (λ g. last_addr-ne a x ps u.0.0 u.0.1 (sym g)) ∙ at,
  set_next-IsSegment m k q q' x c ps u.1 rest,
)

IsSegment-append :
    (m : Nodes) (p a q : ℕ) (b : Bparm) (ps : Params)
    → a ≢ 0
    → m a ≡ some (record { next = q; param = b })
    → IsSegment m p ps a
    → IsSegment m p (ps ++ (a, b) ∷ []) q
IsSegment-append m p a q b [] ne at g = (g, ne, q, at, refl)
IsSegment-append m p a q b ((x, c) ∷ ps) ne at (e, ne', k, at', rest) =
    (e, ne', k, at', IsSegment-append m k a q b ps ne at rest)

last_addr-append : (d a : ℕ) (b : Bparm) (ps : Params) → last_addr d (ps ++ (a, b) ∷ []) ≡ a
last_addr-append d a b [] = refl
last_addr-append d a b ((x, c) ∷ ps) = last_addr-append x a b ps

IsDistinct-append :
    (a : ℕ) (b : Bparm) (ps : Params)
    → IsAbsent a ps
    → IsDistinct ps
    → IsDistinct (ps ++ (a, b) ∷ [])
IsDistinct-append a b [] h u = (tt, tt)
IsDistinct-append a b ((x, c) ∷ ps) h u =
    (All-append _ ps ((a, b) ∷ []) u.0 ((λ e. h.0 (sym e)), tt), IsDistinct-append a b ps h.1 u.1)

abbrev pub blank_param : ℕ → ℕ → Bparm
blank_param ty size = record { type = ty; size = size; u = Bdat.blank }

pub ptr-IsRequest : IsRequest sizeof_ptr
ptr-IsRequest = record { power = (3, 29, refl, refl); fits = omega arith }

abbrev fresh : ℕ → ℕ → Node
fresh ty size = record { next = 0; param = blank_param ty size }

module _ (s : State) (c : Bmem.State) (a ty size : ℕ) where
  link_first :
      s.bp_head ≡ 0
      → link s c a ty size
        ≡ record { bmem = c; bp_head = a; bp_tail = a; node = store s.node a (fresh ty size) }
  unfolding link
  link_first e = let t : (s.bp_head == 0) ≡ true = ground arith in rw t

  link_more :
      s.bp_head ≢ 0
      → link s c a ty size ≡ record {
        bmem = c;
        bp_head = s.bp_head;
        bp_tail = a;
        node = store (set_next s.node s.bp_tail a) a (fresh ty size);
      }
  unfolding link
  link_more e = let t : (s.bp_head == 0) ≡ false = ground arith in rw t

-- The list that the nodes form after a node at `a` has been linked.
link-chain :
    (s : State) (c : Bmem.State) (a ty size : ℕ) (ps : Params)
    → Holds s ps
    → a ≢ 0
    → IsAbsent a ps
    → IsSegment
        (link s c a ty size).node
        (link s c a ty size).bp_head
        (ps ++ (a, blank_param ty size) ∷ [])
        0
link-chain s c a ty size [] h ne new =
    rw (link_first s c a ty size h.chain) (refl, ne, 0, ground arith, refl)
link-chain s c a ty size ((x, b) ∷ ps) h ne new =
    let some_node : s.bp_head ≢ 0 = λ e. h.chain.1 (sym h.chain.0 ∙ e) in
    let last : s.bp_tail ≡ last_addr x ps = elim h.tail [
      | inl e ↦ absurd (some_node e)
      | inr e ↦ e
    ] in
    subst (λ t. IsSegment t.node t.bp_head ((x, b) ∷ ps ++ (a, blank_param ty size) ∷ []) 0)
      (sym (link_more s c a ty size some_node))
      (IsSegment-append _ s.bp_head a 0 (blank_param ty size) ((x, b) ∷ ps) ne (ground arith) (
        store-IsSegment _ a (fresh ty size) s.bp_head a ((x, b) ∷ ps) new (
          subst (λ t. IsSegment (set_next s.node t a) s.bp_head ((x, b) ∷ ps) a) (sym last)
            (set_next-IsSegment s.node s.bp_head 0 a x b ps h.distinct h.chain))))

link-bp_tail : (s : State) (c : Bmem.State) (a ty size : ℕ) → (link s c a ty size).bp_tail ≡ a
unfolding link
link-bp_tail s c a ty size = elim (Bool-cases (s.bp_head == 0)) [ inl e ↦ rw e | inr e ↦ rw e ]

pub link-bmem : (s : State) (c : Bmem.State) (a ty size : ℕ) → (link s c a ty size).bmem ≡ c
unfolding link
link-bmem s c a ty size = elim (Bool-cases (s.bp_head == 0)) [ inl e ↦ rw e | inr e ↦ rw e ]

pub bparm_add_inv :
    (s s' : State) (ty size a : ℕ)
    → bparm_add ty size s ≡ ok (a, s')
    → (c : Bmem.State) × (bmem_alloc_boottime s.bmem (sizeof_bparm + size) sizeof_ptr ≡ ok (a, c))
      × (s' ≡ link s c a ty size)
unfolding bparm_add
bparm_add_inv s s' ty size a e =
    let ((b, c), got, e') =
      bind_ok (bmem_alloc_boottime s.bmem (sizeof_bparm + size) sizeof_ptr) _ e in
    let same : b ≡ a = cc in
    (c, got ∙ ap (λ t. ok (t, c)) same, let e : s' ≡ link s c b ty size = cc in rw same at e)

-- Adding a parameter appends it, zeroed, to the list; the other parameters stay as they are, and
-- the node's `sizeof_bparm + size` bytes are taken from what was free.
pub bparm_add-Holds :
    (s s' : State) (ps : Params) (ty size a : ℕ)
    → Holds s ps
    → bparm_add ty size s ≡ ok (a, s')
    → Holds s' (ps ++ (a, blank_param ty size) ∷ [])
      × IsHandedOut s.bmem s'.bmem a (sizeof_bparm + size)
bparm_add-Holds s s' ps ty size a h e =
    let (c, got, done) = bparm_add_inv s s' ty size a e in
    let all =
      bmem_alloc_boottime_lem s.bmem c (sizeof_bparm + size) sizeof_ptr a h.valid ptr-IsRequest
        got in
    let out : IsHandedOut s.bmem c a (sizeof_bparm + size) = all.3 in
    let (was_free, now_taken) = (out a).0 (omega arith) (omega arith) in
    let nonzero : a ≢ 0 =
      omega (arith, IsFree-above page_size a s.bmem.blk h.valid.laid_out was_free) in
    let new : IsAbsent a ps = All-imp _ _ ps (λ p t q. t (rw q was_free)) h.taken in
    rw (done, link-bmem s c a ty size)
      (
        record {
          valid = all.2;
          chain = link-chain s c a ty size ps h nonzero new;
          tail = inr (link-bp_tail s c a ty size ∙ sym (last_addr-append 0 a _ ps));
          distinct = IsDistinct-append a _ ps new h.distinct;
          taken =
              All-append _ ps _ (All-imp _ _ ps (λ p t f. t ((out p.0).1 f)) h.taken)
                (now_taken, tt);
        },
        out,
      )

-- The list with the data field of the node at `a` overwritten.
abbrev pub filled : ℕ → Bdat → Params → Params
filled a d [] = []
filled a d ((x, b) ∷ ps) = (x, if x == a then record b { u = d } else b) ∷ filled a d ps

fill-chain :
    (m : Nodes) (n : Node) (a p q : ℕ) (d : Bdat) (ps : Params)
    → m a ≡ some n
    → IsSegment m p ps q
    → IsSegment (store m a (record n { param = record n.param { u = d } })) p (filled a d ps) q
fill-chain m n a p q d [] at g = g
fill-chain m n a p q d ((x, b) ∷ ps) at (e, ne, k, here, rest) =
    (e, ne, k, ground arith, fill-chain m n a k q d ps at rest)

pub filled-absent : (a : ℕ) (d : Bdat) (ps : Params) → IsAbsent a ps → filled a d ps ≡ ps
filled-absent a d [] h = refl
filled-absent a d ((x, b) ∷ ps) h = ground (arith, filled-absent a d ps h.1)

filled-All :
    (P : ℕ → Type 0) (a : ℕ) (d : Bdat) (ps : Params)
    → All (λ p. P p.0) ps
    → All (λ p. P p.0) (filled a d ps)
filled-All P a d [] h = h
filled-All P a d ((x, b) ∷ ps) h = (h.0, filled-All P a d ps h.1)

filled-IsDistinct : (a : ℕ) (d : Bdat) (ps : Params) → IsDistinct ps → IsDistinct (filled a d ps)
filled-IsDistinct a d [] h = h
filled-IsDistinct a d ((x, b) ∷ ps) h =
    (filled-All (λ y. y ≢ x) a d ps h.0, filled-IsDistinct a d ps h.1)

last_addr-filled : (a e : ℕ) (d : Bdat) (ps : Params) → last_addr e (filled a d ps) ≡ last_addr e ps
last_addr-filled a e d [] = refl
last_addr-filled a e d ((x, b) ∷ ps) = last_addr-filled a x d ps

IsSegment-IsAbsent :
    (m : Nodes) (a p q : ℕ) (ps : Params) → m a ≡ none → IsSegment m p ps q → IsAbsent a ps
IsSegment-IsAbsent m a p q [] e g = tt
IsSegment-IsAbsent m a p q ((x, b) ∷ ps) e (s, ne, k, here, rest) =
    (λ same. ground (arith, ap m same), IsSegment-IsAbsent m a k q ps e rest)

fill-none : (s : State) (a : ℕ) (d : Bdat) → s.node a ≡ none → fill a d s ≡ s
unfolding fill
fill-none s a d e = ground arith

fill-some :
    (s : State) (a : ℕ) (d : Bdat) (n : Node)
    → s.node a ≡ some n
    → fill a d s
      ≡ record s { node = store s.node a (record n { param = record n.param { u = d } }) }
unfolding fill
fill-some s a d n e = rw (e, fill)

-- When the owner of a node writes its data field, the list stays as it is but for that field.
pub fill-Holds :
    (s : State) (ps : Params) (a : ℕ) (d : Bdat) → Holds s ps → Holds (fill a d s) (filled a d ps)
fill-Holds s ps a d h = elim (Option-cases (s.node a)) [
  | inl e ↦
      rw
        (
          fill-none s a d e,
          filled-absent a d ps (IsSegment-IsAbsent s.node a s.bp_head 0 ps e h.chain),
        )
        h
  | inr (n, e) ↦ rw (fill-some s a d n e) (record {
    valid = h.valid;
    chain = fill-chain s.node n a s.bp_head 0 d ps e h.chain;
    tail = rw (last_addr-filled a 0 d ps) h.tail;
    distinct = filled-IsDistinct a d ps h.distinct;
    taken = filled-All (λ x. ¬ (IsFree x s.bmem.blk)) a d ps h.taken;
  })
]

pub filled-append :
    (a : ℕ) (d : Bdat) (ps qs : Params) → filled a d (ps ++ qs) ≡ filled a d ps ++ filled a d qs
filled-append a d [] qs = refl
filled-append a d ((x, b) ∷ ps) qs = rw (filled-append a d ps qs)

filled-last :
    (a : ℕ) (d : Bdat) (b : Bparm) (ps : Params)
    → IsAbsent a ps
    → filled a d (ps ++ (a, b) ∷ []) ≡ ps ++ (a, record b { u = d }) ∷ []
filled-last a d b ps h =
    filled-append a d ps ((a, b) ∷ []) ∙ ap₂ ◌++◌ (filled-absent a d ps h) (ground arith)

IsDistinct-last : (a : ℕ) (b : Bparm) (ps : Params) → IsDistinct (ps ++ (a, b) ∷ []) → IsAbsent a ps
IsDistinct-last a b [] u = tt
IsDistinct-last a b ((x, c) ∷ ps) u =
    (λ e. All-last _ ps (a, b) u.0 (sym e), IsDistinct-last a b ps u.1)

abbrev pub range_param : MemRange → Bparm
range_param r = record { type = bp_mrng; size = sizeof_mem_range; u = Bdat.mem_range r }

-- A nonempty memory range is appended to the list as a parameter of its own; an empty one changes
-- nothing.
pub bparm_add_mem_range-Holds :
    (s s' : State) (ps : Params) (r : MemRange) (bd : Option ℕ)
    → Holds s ps
    → bparm_add_mem_range r s ≡ ok (bd, s')
    → ((r.len ≡ 0) × (bd ≡ none) × (s' ≡ s))
      ⊎ ((r.len ≢ 0) × (a : ℕ) × (bd ≡ some a) × Holds s' (ps ++ (a, range_param r) ∷ []))
unfolding bparm_add_mem_range
bparm_add_mem_range-Holds s s' ps r bd h e = elim (Bool-cases (r.len == 0)) [
  | inl z ↦ let e' : ok (none, s) ≡ ok (bd, s') = rw z at e in inl (ground arith, cc, cc)
  | inr z ↦
      let e' : (do
        (bd, s') ← bparm_add bp_mrng sizeof_mem_range s
        ok (some bd, fill bd (Bdat.mem_range r) s'))
          ≡ ok (bd, s') =
        rw z at e in
      let ((a, t), added, done) = bind_ok (bparm_add bp_mrng sizeof_mem_range s) _ e' in
      let h' = (bparm_add-Holds s t ps bp_mrng sizeof_mem_range a h added).0 in
      let new = IsDistinct-last a _ ps h'.distinct in
      let same : s' ≡ fill a (Bdat.mem_range r) t = cc in
      inr (
        ground arith,
        a,
        cc,
        rw (same, ← filled-last a (Bdat.mem_range r) (blank_param bp_mrng sizeof_mem_range) ps new)
            (fill-Holds t _ a (Bdat.mem_range r) h'),
      )
]
