-- ===== src/Stage1/Bmem/Alloc.antt =====
-- bmem_alloc of stage1/bmem.c: what it takes, what it leaves, and when it fails.
use biefircate.Prelude.{
  ℕ, zero, suc, ◌+◌, ◌-◌, ◌*◌, ◌^◌, ◌%◌, ◌≤◌, ◌<◌, bit_and, ◌≡◌, inl, inr, refl, none, some, List,
  arith, length, ok, Option-cases,
}
use native.Mathlib.Nat.{mod-eq_of_lt}
use biefircate.Prelude.Words.{
  u32, sub_w, neg_w, IsAlign, IsAlignedDown, IsAlignedDown-max, bit_and-neg,
}
use biefircate.Stage1.Bmem.{
  Blk, State, blk_at, high_astart, alloc_scan, take_high, bmem_alloc, bmem_max_addr, page_size,
}
use biefircate.Stage1.Bmem.Layout.{
  IsLaidOut, IsFree, blk_at_bounds, IsPart, set-IsLaidOut, set-IsFree, blk_at-IsFree,
}

-- What bmem.c keeps true of its variables.
pub record IsValid (s : State) : Type 0 where
  pub laid_out : IsLaidOut page_size s.blk
  pub top_in : s.runtime_bmem_top ≤ bmem_max_addr
  pub bot_in : s.boottime_bmem_bot ≤ bmem_max_addr

-- The arguments fit: `align` is a power of two, at most 2 ^ 31.
pub record IsRequest (align : ℕ) : Type 0 where
  pub power : IsAlign 32 align
  pub fits : align ≤ 2 ^ 31

-- A block of valid bounds has room for `size` bytes at a multiple of `align`, and `astart` is the
-- highest place.
pub record IsHighest (size align astart : ℕ) (b : Blk) : Type 0 where
  pub above : b.start ≤ astart
  pub room : astart + size ≤ b.end
  pub multiple : astart % align ≡ 0
  pub near : b.end < astart + size + align

-- From `s` to `s'`, the bytes from `astart` on for `size` go from free to taken, and no byte becomes
-- free.
abbrev pub IsHandedOut : State → State → ℕ → ℕ → Type 0
IsHandedOut s s' astart size =
    (x : ℕ)
    → (astart ≤ x → x < astart + size → IsFree x s.blk × ¬ (IsFree x s'.blk))
      × (IsFree x s'.blk → IsFree x s.blk)

high_astart_lem :
    (size align : ℕ) (b : Blk)
    → IsRequest align
    → b.end ≤ bmem_max_addr
    → size ≤ b.end
    → IsAlignedDown (b.end - size) align (high_astart size align b)
high_astart_lem size align b r h p =
    let down : IsAlignedDown (b.end - size) align (bit_and (b.end - size) (neg_w 32 align)) =
      bit_and-neg 32 (b.end - size) align (omega arith) r.power in
    let same : sub_w 64 b.end size ≡ b.end - size = omega arith in
    let word : u32 align ≡ align = mod-eq_of_lt (omega (arith, r.fits)) in
    let whole : u32 (bit_and (b.end - size) (neg_w 32 align))
        ≡ bit_and (b.end - size) (neg_w 32 align) =
      mod-eq_of_lt (omega arith) in
    rw (same, word, whole) down

pub alloc_scan_found :
    (blk : List Blk) (size align n i astart : ℕ)
    → alloc_scan blk size align n ≡ some (i, astart)
    → (i < n)
      × (size ≤ sub_w 32 (blk_at blk i).end (blk_at blk i).start)
      × (high_astart size align (blk_at blk i) ≡ astart)
      × ((blk_at blk i).start ≤ astart)
unfolding alloc_scan
alloc_scan_found blk size align zero i astart h = cc
alloc_scan_found blk size align (suc n) i astart h =
    ground (arith, alloc_scan_found blk size align n i astart)

pub alloc_scan-none :
    (blk : List Blk) (size align n i : ℕ)
    → alloc_scan blk size align n ≡ none
    → i < n
    → size ≤ sub_w 32 (blk_at blk i).end (blk_at blk i).start
    → high_astart size align (blk_at blk i) < (blk_at blk i).start
unfolding alloc_scan
alloc_scan-none blk size align zero i h p q = absurd (omega arith)
alloc_scan-none blk size align (suc n) i h p q = ground (arith, alloc_scan-none blk size align n i)

-- What a successful `bmem_alloc` found: a block, and the highest place in it.
pub record IsAllocated (s : State) (size align astart : ℕ) (s' : State) : Type 0 where
  pub idx : ℕ
  pub idx_in : idx < length s.blk
  pub place : IsHighest size align astart (blk_at s.blk idx)
  pub state : s' ≡ take_high s idx astart

bmem_alloc_inv :
    (s s' : State) (size align astart : ℕ)
    → bmem_alloc s size align ≡ ok (astart, s')
    → (i : ℕ) × (alloc_scan s.blk size align (length s.blk) ≡ some (i, astart))
      × (s' ≡ take_high s i astart)
unfolding bmem_alloc
bmem_alloc_inv s s' size align astart h =
    elim (Option-cases (alloc_scan s.blk size align (length s.blk))) [
      | inl e ↦ absurd (ground arith)
      | inr ((i, a), e) ↦ (i, ground arith, ground arith)
    ]

place_lem :
    (size align astart : ℕ) (b : Blk)
    → IsRequest align
    → b.start ≤ b.end
    → b.end ≤ bmem_max_addr
    → size ≤ sub_w 32 b.end b.start
    → high_astart size align b ≡ astart
    → b.start ≤ astart
    → IsHighest size align astart b
place_lem size align astart b r h p q e g =
    let down : IsAlignedDown (b.end - size) align (high_astart size align b) =
      high_astart_lem size align b r p (omega arith) in
    let found : IsAlignedDown (b.end - size) align astart = rw e at down in
    record { above = g; room = omega arith; multiple = found.multiple; near = omega arith }

-- A successful `bmem_alloc` takes the highest place of some block.
pub bmem_alloc-IsAllocated :
    (s s' : State) (size align astart : ℕ)
    → IsValid s
    → IsRequest align
    → bmem_alloc s size align ≡ ok (astart, s')
    → IsAllocated s size align astart s'
bmem_alloc-IsAllocated s s' size align astart v r h =
    let (i, e, g) = bmem_alloc_inv s s' size align astart h in
    let found = alloc_scan_found s.blk size align (length s.blk) i astart e in
    let bounds = blk_at_bounds page_size i s.blk v.laid_out found.0 in
    record {
      idx = i;
      idx_in = found.0;
      place =
          place_lem size align astart (blk_at s.blk i) r bounds.1 (omega arith) found.1 found.2
            found.3;
      state = g;
    }

high-IsPart :
    (size align astart : ℕ) (b : Blk)
    → IsHighest size align astart b
    → IsPart (record b { end = astart }) b
high-IsPart size align astart b h = record {
  start_in = omega arith;
  ordered = h.above;
  end_in = omega arith;
  same_orig = refl;
}

take_high-IsValid :
    (s : State) (i size align astart : ℕ)
    → IsValid s
    → i < length s.blk
    → IsHighest size align astart (blk_at s.blk i)
    → IsValid (take_high s i astart)
take_high-IsValid s i size align astart v l p = record {
  laid_out = set-IsLaidOut page_size i s.blk _ v.laid_out (high-IsPart size align astart _ p);
  top_in = ground arith;
  bot_in = v.bot_in;
}

take_high-IsHandedOut :
    (s : State) (i size align astart : ℕ)
    → IsValid s
    → i < length s.blk
    → IsHighest size align astart (blk_at s.blk i)
    → IsHandedOut s (take_high s i astart) astart size
take_high-IsHandedOut s i size align astart v l p x =
    let part = high-IsPart size align astart _ p in
    let old = set-IsFree page_size i x s.blk _ v.laid_out l part in
    (
      λ lo hi.
          (blk_at-IsFree i x s.blk l (omega arith), λ f. omega (arith, (old f).1 (omega arith))),
      λ f. (old f).0,
    )

-- What `bmem_alloc` does to a valid state, when it returns: `astart` is a multiple of `align`; the
-- state is valid again; every byte from `astart` on for `size` was free, and none of them is free
-- afterwards; no byte becomes free; the run-time memory now ends by `astart`; and the end of the
-- boot-time memory stays.
pub bmem_alloc_lem :
    (s s' : State) (size align astart : ℕ)
    → IsValid s
    → IsRequest align
    → bmem_alloc s size align ≡ ok (astart, s')
    → (astart % align ≡ 0)
      × IsValid s'
      × IsHandedOut s s' astart size
      × (s'.runtime_bmem_top ≤ astart)
      × (s'.boottime_bmem_bot ≡ s.boottime_bmem_bot)
bmem_alloc_lem s s' size align astart v r h =
    let got = bmem_alloc-IsAllocated s s' size align astart v r h in
    rw got.state (
      got.place.multiple,
      take_high-IsValid s got.idx size align astart v got.idx_in got.place,
      take_high-IsHandedOut s got.idx size align astart v got.idx_in got.place,
      ground arith,
      refl,
    )

high_astart-max :
    (size align q : ℕ) (b : Blk)
    → IsRequest align
    → b.end ≤ bmem_max_addr
    → q * align + size ≤ b.end
    → q * align ≤ high_astart size align b
high_astart-max size align q b r h p =
    IsAlignedDown-max (b.end - size) align (high_astart size align b) q
      (high_astart_lem size align b r h (omega arith)) (omega arith)

-- `bmem_alloc` returns whenever some block has room: a place `x` at a multiple of `align`, with
-- `size` bytes, inside the free part of a block.
pub bmem_alloc_succeeds :
    (s : State) (size align i x q : ℕ)
    → IsValid s
    → IsRequest align
    → i < length s.blk
    → x ≡ q * align
    → (blk_at s.blk i).start ≤ x
    → x + size ≤ (blk_at s.blk i).end
    → (a : ℕ) × (s' : State) × (bmem_alloc s size align ≡ ok (a, s'))
unfolding bmem_alloc
bmem_alloc_succeeds s size align i x q v r l e p g =
    elim (Option-cases (alloc_scan s.blk size align (length s.blk))) [
      | inl none_left ↦ absurd (
          omega (
            arith,
            blk_at_bounds page_size i s.blk v.laid_out l,
            alloc_scan-none s.blk size align (length s.blk) i none_left l
                (omega (arith, blk_at_bounds page_size i s.blk v.laid_out l)),
            high_astart-max size align q (blk_at s.blk i) r
                (omega (arith, blk_at_bounds page_size i s.blk v.laid_out l)) (omega arith),
          ))
      | inr ((j, a), found) ↦ (a, take_high s j a, ground arith)
    ]
