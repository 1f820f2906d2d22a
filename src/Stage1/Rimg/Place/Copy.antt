-- ===== src/Stage1/Rimg/Place/Copy.antt =====
-- get_rimg of stage1/pci.c leaves the image, and its room at run time, at the segments that it gives.
use biefircate.Prelude.{
  ℕ, ◌+◌, ◌-◌, ◌*◌, ◌%◌, ◌≤◌, ◌<◌, ◌≡◌, inl, inr, refl, ap, sym, ◌∙◌, subst, true, false, ◌&&◌,
  some, List, [], ◌∷◌, arith, ltb, leb, if◌then◌else◌, Bool-cases, Option-cases, length, Gives,
  Gives-bind, Gives-imp,
}
use biefircate.Bparams.{PciDev}
use biefircate.Stage1.Bmem
use biefircate.Stage1.Bmem.{
  Blk, page_size, kibyte, bmem_max_addr, alloc_scan, boottime_scan, bmem_alloc, bmem_alloc_boottime,
}
use biefircate.Stage1.Bmem.Layout.{IsLaidOut, IsLaidOut-max, IsFree}
use biefircate.Stage1.Bmem.Alloc.{IsValid, IsRequest, IsHandedOut, bmem_alloc_lem}
use biefircate.Stage1.Bmem.Boottime.{bmem_alloc_boottime_lem}
use biefircate.Stage1.Rimg.Place.{
  Pcir, State, memcpy, addr_to_rm_seg, rt_size, is_in_place, place_image, get_shrinking, get_whole,
  is_shrinking, get_rimg,
}

IsFree-max : (lo x : ℕ) (bs : List Blk) → IsLaidOut lo bs → IsFree x bs → x < bmem_max_addr
IsFree-max lo x [] h f = absurd f
IsFree-max lo x (b ∷ bs) h (inl f) = omega (arith, h, f, IsLaidOut-max b.orig_end bs h.3)
IsFree-max lo x (b ∷ bs) h (inr f) = IsFree-max b.orig_end x bs h.3 f

-- What either allocator gives.
abbrev IsPlaced : Bmem.State → ℕ → ℕ → ℕ × Bmem.State → Type 0
IsPlaced s size align (a, s') = (a % align ≡ 0) × IsValid s' × IsHandedOut s s' a size

abbrev Any {ℓ} : {A : Type ℓ} → A → Type 0
Any a = Unit

bmem_alloc-Gives : (s : Bmem.State) (size align : ℕ) → Gives Any (bmem_alloc s size align)
unfolding bmem_alloc
bmem_alloc-Gives s size align = elim (Option-cases (alloc_scan s.blk size align (length s.blk))) [
  | inl e ↦ rw (e, bmem_alloc) tt
  | inr ((i, a), e) ↦ rw (e, bmem_alloc) tt
]

bmem_alloc_boottime-Gives :
    (s : Bmem.State) (size align : ℕ) → Gives Any (bmem_alloc_boottime s size align)
unfolding bmem_alloc_boottime
bmem_alloc_boottime-Gives s size align = elim (Option-cases (boottime_scan size align s.blk 0)) [
  | inl e ↦ rw (e, bmem_alloc_boottime) tt
  | inr ((i, a), e) ↦ elim (Bool-cases (leb s.runtime_bmem_top a)) [
    | inl high ↦ rw (e, high, bmem_alloc_boottime) tt
    | inr low ↦ rw (e, low, bmem_alloc_boottime) tt
  ]
]

module _ (s : Bmem.State) (size align : ℕ) (v : IsValid s) (r : IsRequest align) where
  bmem_alloc-IsPlaced : Gives (IsPlaced s size align) (bmem_alloc s size align)
  bmem_alloc-IsPlaced =
      Gives-imp Any (IsPlaced s size align) (bmem_alloc s size align)
        (λ (a, s') e _.
          let (aligned, valid, out, rest, rest') = bmem_alloc_lem s s' size align a v r e in
          (aligned, valid, out))
        (bmem_alloc-Gives s size align)

  bmem_alloc_boottime-IsPlaced : Gives (IsPlaced s size align) (bmem_alloc_boottime s size align)
  bmem_alloc_boottime-IsPlaced =
      Gives-imp Any (IsPlaced s size align) (bmem_alloc_boottime s size align)
        (λ (a, s') e _.
          let (aligned, below, valid, out, rest, rest') =
            bmem_alloc_boottime_lem s s' size align a v r e in
          (aligned, valid, out))
        (bmem_alloc_boottime-Gives s size align)

-- The `n` bytes from `at` on are those that `from` had in `s`.
abbrev HasImage : ℕ → ℕ → ℕ → State → State → Type 0
HasImage at from n s s' = (k : ℕ) → k < n → s'.byte (at + k) ≡ s.byte (from + k)

-- Bytes that were not free keep their values.
abbrev IsKept : State → State → Type 0
IsKept s s' = (x : ℕ) → ¬ (IsFree x s.bmem.blk) → s'.byte x ≡ s.byte x

-- The bytes were free, and are not free any more.
abbrev IsTaken : ℕ → ℕ → State → State → Type 0
IsTaken at n s s' = (k : ℕ) → k < n → IsFree (at + k) s.bmem.blk × ¬ (IsFree (at + k) s'.bmem.blk)

memcpy_lem :
    (byte : ℕ → ℕ) (dst src n k : ℕ) → k < n → memcpy byte dst src n (dst + k) ≡ byte (src + k)
unfolding memcpy
memcpy_lem byte dst src n k l =
    let inside : (leb dst (dst + k) && ltb (dst + k) (dst + n)) ≡ true = ground arith in
    let at : dst + k - dst ≡ k = omega arith in rw (inside, at) refl

memcpy-outside :
    (byte : ℕ → ℕ) (dst src n x : ℕ)
    → (leb dst x && ltb x (dst + n)) ≡ false
    → memcpy byte dst src n x ≡ byte x
unfolding memcpy
memcpy-outside byte dst src n x out = rw out refl

-- A segment is the address that it came from.
segment_lem : (a : ℕ) → a < bmem_max_addr → a % 16 ≡ 0 → addr_to_rm_seg a * 16 ≡ a
segment_lem a low aligned = omega arith

module _ (s : State) (v : IsValid s.bmem) (rimg sz : ℕ) where
  -- A copy in memory that was free.
  copy-IsKept :
      (a : ℕ) (b : Bmem.State)
      → IsHandedOut s.bmem b a sz
      → IsKept s (record { bmem = b; byte = memcpy s.byte a rimg sz })
  copy-IsKept a b out x taken = elim (Bool-cases (leb a x && ltb x (a + sz))) [
    | inl here ↦ absurd (taken ((out x).0 (ground arith) (ground arith)).0)
    | inr there ↦ memcpy-outside s.byte a rimg sz x there
  ]

  handed_out-low : (a : ℕ) (b : Bmem.State) → 0 < sz → IsHandedOut s.bmem b a sz → a < bmem_max_addr
  handed_out-low a b pos out =
      IsFree-max page_size a s.bmem.blk v.laid_out ((out a).0 (omega arith) (omega arith)).0

-- What `get_rimg` gives for an image that has a PCI Data Structure.
pub record IsGot (s : State) (rimg sz rt_sz : ℕ) (bd : PciDev) (s' : State) : Type 0 where
  pub valid : IsValid s'.bmem
  pub size : bd.rimg_sz ≡ sz
  pub image : (k : ℕ) → k < sz → s'.byte (bd.rimg_seg * 16 + k) ≡ s.byte (rimg + k)
  pub keeps : (x : ℕ) → ¬ (IsFree x s.bmem.blk) → s'.byte x ≡ s.byte x
  pub run_time :
      (k : ℕ)
      → k < rt_sz
      → IsFree (bd.rimg_rt_seg * 16 + k) s.bmem.blk
        × ¬ (IsFree (bd.rimg_rt_seg * 16 + k) s'.bmem.blk)
  pub never_free : (x : ℕ) → IsFree x s'.bmem.blk → IsFree x s.bmem.blk

abbrev pub IsGetResult : State → ℕ → ℕ → ℕ → PciDev × State → Type 0
IsGetResult s rimg sz rt_sz (bd, s') = IsGot s rimg sz rt_sz bd s'

kib2-IsRequest : IsRequest 2048
kib2-IsRequest = record { power = (11, 21, refl, refl); fits = omega arith }

hkib-IsRequest : IsRequest 512
hkib-IsRequest = record { power = (9, 23, refl, refl); fits = omega arith }

get_whole-Gives :
    (bd : PciDev) (rimg sz : ℕ) (s : State)
    → IsValid s.bmem
    → Gives (IsGetResult s rimg sz sz) (get_whole bd rimg sz s)
unfolding get_whole
get_whole-Gives bd rimg sz s v =
    Gives-bind (IsPlaced s.bmem sz 2048) (IsGetResult s rimg sz sz) (bmem_alloc s.bmem sz 2048) _
      (bmem_alloc-IsPlaced s.bmem sz 2048 v kib2-IsRequest)
      λ (a, b) (aligned, valid, out).
        let segment = λ (pos : 0 < sz).
          segment_lem a (handed_out-low s v rimg sz a b pos out) (omega (arith, aligned)) in
        record {
          valid = valid;
          size = refl;
          image = λ k l.
              ap (λ (x : ℕ). memcpy s.byte a rimg sz (x + k)) (segment (omega arith))
              ∙ memcpy_lem s.byte a rimg sz k l;
          keeps = copy-IsKept s v rimg sz a b out;
          run_time =
              λ k l. rw (segment (omega arith)) ((out (a + k)).0 (omega arith) (omega arith));
          never_free = λ x f. (out x).1 f;
        }

-- Where `place_image` leaves the image.
record IsImageAt (s : State) (rimg sz at : ℕ) (s' : State) : Type 0 where
  valid : IsValid s'.bmem
  aligned : at % 16 ≡ 0
  low : 0 < sz → at < bmem_max_addr
  image : (k : ℕ) → k < sz → s'.byte (at + k) ≡ s.byte (rimg + k)
  keeps : (x : ℕ) → ¬ (IsFree x s.bmem.blk) → s'.byte x ≡ s.byte x
  never_free : (x : ℕ) → IsFree x s'.bmem.blk → IsFree x s.bmem.blk

abbrev IsPlacedAt : State → ℕ → ℕ → ℕ × State → Type 0
IsPlacedAt s rimg sz (at, s') = IsImageAt s rimg sz at s'

place_image-Gives :
    (rimg sz : ℕ) (s : State)
    → IsValid s.bmem
    → sz ≤ bmem_max_addr
    → Gives (IsPlacedAt s rimg sz) (place_image rimg sz s)
unfolding place_image is_in_place
place_image-Gives rimg sz s v small = elim (Bool-cases (is_in_place rimg sz)) [
  | inl here ↦ rw here (record {
    valid = v;
    aligned = ground arith;
    low = λ pos. ground arith;
    image = λ k l. refl;
    keeps = λ x taken. refl;
    never_free = λ x f. f;
  })
  | inr there ↦ rw there (
      Gives-bind (IsPlaced s.bmem sz 512) (IsPlacedAt s rimg sz) (bmem_alloc_boottime s.bmem sz 512)
        _ (bmem_alloc_boottime-IsPlaced s.bmem sz 512 v hkib-IsRequest)
        λ (a, b) (aligned, valid, out). record {
          valid = valid;
          aligned = omega (arith, aligned);
          low = λ pos. handed_out-low s v rimg sz a b pos out;
          image = λ k l. memcpy_lem s.byte a rimg sz k l;
          keeps = copy-IsKept s v rimg sz a b out;
          never_free = λ x f. (out x).1 f;
        })
]

get_shrinking-Gives :
    (bd : PciDev) (rimg sz rt_sz : ℕ) (s : State)
    → IsValid s.bmem
    → sz ≤ bmem_max_addr
    → Gives (IsGetResult s rimg sz rt_sz) (get_shrinking bd rimg sz rt_sz s)
unfolding get_shrinking
get_shrinking-Gives bd rimg sz rt_sz s v small =
    Gives-bind (IsPlacedAt s rimg sz) (IsGetResult s rimg sz rt_sz) (place_image rimg sz s) _
      (place_image-Gives rimg sz s v small)
      λ (at, s1) p.
        Gives-bind (IsPlaced s1.bmem rt_sz 512) (IsGetResult s rimg sz rt_sz)
          (bmem_alloc s1.bmem rt_sz 512) _
          (bmem_alloc-IsPlaced s1.bmem rt_sz 512 p.valid hkib-IsRequest)
          λ (a, b) (aligned, valid, out).
            let segment = λ (pos : 0 < rt_sz).
              segment_lem a (handed_out-low s1 p.valid rimg rt_sz a b pos out)
                (omega (arith, aligned)) in
            record {
              valid = valid;
              size = refl;
              image = λ k l.
                  ap (λ (x : ℕ). s1.byte (x + k)) (segment_lem at (p.low (omega arith)) p.aligned)
                  ∙ p.image k l;
              keeps = p.keeps;
              run_time = λ k l. rw (segment (omega arith)) (
                  let (was, is) = (out (a + k)).0 (omega arith) (omega arith) in
                  (p.never_free (a + k) was, is));
              never_free = λ x f. p.never_free x ((out x).1 f);
            }

-- The image's size at run time.
abbrev pub run_time_size : ℕ → Pcir → ℕ
run_time_size sz p = if leb 3 p.pcir_rev then rt_size p else sz

run_time_size-shrinking :
    (sz : ℕ) (p : Pcir) → is_shrinking sz p ≡ true → run_time_size sz p ≡ rt_size p
unfolding is_shrinking
run_time_size-shrinking sz p e = ground arith

run_time_size-whole : (sz : ℕ) (p : Pcir) → is_shrinking sz p ≡ false → run_time_size sz p ≡ sz
unfolding is_shrinking
run_time_size-whole sz p e = ground arith

get_rimg-shrinking :
    (bd : PciDev) (rimg sz : ℕ) (p : Pcir) (s : State)
    → is_shrinking sz p ≡ true
    → get_rimg bd rimg sz (some p) s ≡ get_shrinking bd rimg sz (rt_size p) s
unfolding get_rimg
get_rimg-shrinking bd rimg sz p s e = rw (e, get_rimg) refl

get_rimg-whole :
    (bd : PciDev) (rimg sz : ℕ) (p : Pcir) (s : State)
    → is_shrinking sz p ≡ false
    → get_rimg bd rimg sz (some p) s ≡ get_whole bd rimg sz s
unfolding get_rimg
get_rimg-whole bd rimg sz p s e = rw (e, get_rimg) refl

-- `get_rimg` for an image of at most 1 MiB that has a PCI Data Structure: it returns or calls `error`. If
-- it returns, the segment `rimg_seg` has a copy of the image, or the image itself; at `rimg_rt_seg` there
-- is room for its size at run time, in memory that was free and is not any more; no byte that was not free
-- has changed, and none has become free.
pub get_rimg_lem :
    (bd : PciDev) (rimg sz : ℕ) (p : Pcir) (s : State)
    → IsValid s.bmem
    → sz ≤ bmem_max_addr
    → Gives (IsGetResult s rimg sz (run_time_size sz p)) (get_rimg bd rimg sz (some p) s)
get_rimg_lem bd rimg sz p s v small = elim (Bool-cases (is_shrinking sz p)) [
  | inl e ↦
      subst (λ n. Gives (IsGetResult s rimg sz n) (get_rimg bd rimg sz (some p) s))
        (sym (run_time_size-shrinking sz p e))
        (rw (get_rimg-shrinking bd rimg sz p s e)
          (get_shrinking-Gives bd rimg sz (rt_size p) s v small))
  | inr e ↦
      subst (λ n. Gives (IsGetResult s rimg sz n) (get_rimg bd rimg sz (some p) s))
        (sym (run_time_size-whole sz p e))
        (rw (get_rimg-whole bd rimg sz p s e) (get_whole-Gives bd rimg sz s v))
]
