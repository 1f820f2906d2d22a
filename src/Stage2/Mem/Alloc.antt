-- ===== src/Stage2/Mem/Alloc.antt =====
-- mem_alloc of stage2/mem.c: what it takes, and when it returns.
use biefircate.Prelude.{
  ℕ, zero, suc, ◌+◌, ◌-◌, ◌^◌, ◌%◌, ◌≤◌, ◌<◌, bit_and, ◌≡◌, inl, inr, ◌∙◌, sym, ap, subst, false,
  ◌&&◌, ◌||◌, some, List, arith, ltb, leb, ◌==◌, ◌!=◌, if◌then◌else◌, Bool-cases, lt-cases, length,
  set, length-set, ok, bind_ok,
}
use biefircate.Prelude.Words.{u32, u64, sub_w, neg_w, IsAlign, IsAlignedDown, bit_and-neg}
use biefircate.Bparams.{MemRange, e820_ram, e820_reserved}
use biefircate.Stage2.Mem.{
  State, range_at, find_highest_range_below, split_range, double_at, lower_half, upper_half, Visit,
  mem_astart, visit, mem_scan, limit, mem_alloc,
}
use biefircate.Stage2.Mem.Layout.{
  IsMapFrom, type_of, range_at_order, type_of-range_at, set-type_lem, split_lem,
}
use biefircate.Stage2.Mem.Search.{IsTop, walk_down_found, walk_down-ok, halve_lem}

-- The map is laid out from address 0, is not empty, and fits its array.
pub record IsValid (s : State) : Type 0 where
  pub laid_out : IsMapFrom 0 s.mem_ranges
  pub some_range : 0 < length s.mem_ranges
  pub room : length s.mem_ranges ≤ s.max_mem_ranges
  pub in_word : s.max_mem_ranges ≤ 2 ^ 30

-- The size is not 0, the alignment a power of two, and the limit a 32-bit number.
pub record IsRequest (sz align max_addr : ℕ) : Type 0 where
  pub size : 0 < sz
  pub power : IsAlign 32 align
  pub in_word : max_addr < 2 ^ 32

-- A place for `sz` bytes in a range: the highest multiple of the alignment.
pub record IsPlace (sz align a : ℕ) (mr : MemRange) : Type 0 where
  pub ram : mr.e820_type ≡ e820_ram
  pub above_start : mr.start ≤ a
  pub fits : a + sz ≤ mr.start + mr.len
  pub near : mr.start + mr.len < a + sz + align
  pub multiple : a % align ≡ 0

pub mem_astart_lem :
    (sz align : ℕ) (mr : MemRange)
    → IsAlign 32 align
    → 0 < sz
    → sz ≤ mr.len
    → mr.start + mr.len ≤ 2 ^ 32
    → IsAlignedDown (mr.start + mr.len - sz) align (mem_astart sz align mr)
mem_astart_lem sz align mr p pos le end =
    let down : IsAlignedDown (mr.start + mr.len - sz) align
        (bit_and (mr.start + mr.len - sz) (neg_w 32 align)) =
      bit_and-neg 32 (mr.start + mr.len - sz) align (omega arith) p in
    let e : sub_w 32 (u32 (mr.start + mr.len)) sz ≡ mr.start + mr.len - sz = omega arith in
    rw e down

visit-IsPlace :
    (sz align a : ℕ) (mr : MemRange)
    → IsAlign 32 align
    → 0 < sz
    → mr.start + mr.len ≤ 2 ^ 32
    → visit sz align mr ≡ Visit.take_at a
    → IsPlace sz align a mr
unfolding visit
visit-IsPlace sz align a mr p pos end h =
    elim (Bool-cases (mr.e820_type != e820_ram || ltb mr.len sz)) [
      | inl e ↦ absurd (ground arith)
      | inr e ↦
          let down = mem_astart_lem sz align mr p pos (ground arith) end in
          let same : mem_astart sz align mr ≡ a = ground arith in
          let found : IsAlignedDown (mr.start + mr.len - sz) align a = rw same at down in
          record {
            ram = ground arith;
            above_start = ground arith;
            fits = ground (arith, found.below);
            near = ground (arith, found);
            multiple = found.multiple;
          }
    ]

mem_scan_found :
    (sz align : ℕ) (mrs : List MemRange) (top i a : ℕ)
    → mem_scan sz align mrs top ≡ ok (i, a)
    → (i ≤ top) × (visit sz align (range_at mrs i) ≡ Visit.take_at a)
unfolding mem_scan
mem_scan_found sz align mrs zero i a h = ground arith
mem_scan_found sz align mrs (suc top) i a h = ground (arith, mem_scan_found sz align mrs top i a)

-- The addresses from `a` to `aend` become reserved, and no other changes its type.
abbrev pub IsReservedIn : State → State → ℕ → ℕ → Type 0
IsReservedIn s s' a aend =
    IsValid s'
    × ((x : ℕ)
        → type_of x s'.mem_ranges
          ≡ (if leb a x && ltb x aend then some e820_reserved else type_of x s.mem_ranges))

whole-IsReservedIn :
    (s : State) (i a : ℕ)
    → IsValid s
    → i < length s.mem_ranges
    → let mr = range_at s.mem_ranges i in
      mr.start ≡ a
      → IsReservedIn s
          (record s { mem_ranges = set s.mem_ranges i (record mr { e820_type = e820_reserved }) })
          a
          (mr.start + mr.len)
whole-IsReservedIn s i a v l e =
    let mr = range_at s.mem_ranges i in
    let law = set-type_lem 0 i e820_reserved s.mem_ranges v.laid_out l in
    let size = length-set s.mem_ranges i (record mr { e820_type = e820_reserved }) in
    (
      record {
        laid_out = law.0;
        some_range = omega (arith, size, v.some_range);
        room = omega (arith, size, v.room);
        in_word = v.in_word;
      },
      λ x. ground (arith, law.1 x),
    )

-- The state with range `i` split at `a`.
abbrev pub parted : State → ℕ → ℕ → State
parted s i a = record s {
  mem_ranges =
      set (set (double_at s.mem_ranges i) i (lower_half (range_at s.mem_ranges i) a e820_ram))
        (suc i) (upper_half (range_at s.mem_ranges i) a e820_reserved);
}

part-IsReservedIn :
    (s : State) (i a : ℕ)
    → IsValid s
    → i < length s.mem_ranges
    → length s.mem_ranges < s.max_mem_ranges
    → let mr = range_at s.mem_ranges i in
      mr.e820_type ≡ e820_ram
      → mr.start < a
      → a < mr.start + mr.len
      → IsReservedIn s (parted s i a) a (mr.start + mr.len)
part-IsReservedIn s i a v l room ram lo hi =
    let mr = range_at s.mem_ranges i in
    let law = split_lem 0 i a e820_ram e820_reserved s.mem_ranges v.laid_out l lo hi in
    (
      record {
        laid_out = law.0;
        some_range = omega (arith, law.1);
        room = omega (arith, law.1);
        in_word = v.in_word;
      },
      λ x. ground (arith, law.2 x, type_of-range_at 0 x i s.mem_ranges v.laid_out l),
    )

-- A range of available memory that is split where an allocation starts is reserved from there on.
split_range-IsReservedIn :
    (s s' : State) (sz align i a : ℕ)
    → IsValid s
    → i < length s.mem_ranges
    → 0 < sz
    → (range_at s.mem_ranges i).start + (range_at s.mem_ranges i).len ≤ 2 ^ 32
    → IsPlace sz align a (range_at s.mem_ranges i)
    → split_range s i a e820_ram e820_reserved ≡ ok s'
    → IsReservedIn s s' a ((range_at s.mem_ranges i).start + (range_at s.mem_ranges i).len)
unfolding split_range
split_range-IsReservedIn s s' sz align i a v l pos end p h =
    let mr = range_at s.mem_ranges i in
    elim (Bool-cases (mr.start == a)) [
      | inl e ↦
          let law = whole-IsReservedIn s i a v l (ground arith) in
          let g : s' ≡ record s {
            mem_ranges = set s.mem_ranges i (record mr { e820_type = e820_reserved });
          } =
            ground arith in
          subst (λ t. IsReservedIn s t a (mr.start + mr.len)) (sym g) law
      | inr e ↦
          let inside : (u64 (mr.start + mr.len) == a) ≡ false = ground (arith, p.fits) in
          elim (Bool-cases (leb s.max_mem_ranges (length s.mem_ranges))) [
            | inl full ↦ absurd (let bad = rw (e, inside, full) at h in cc)
            | inr room ↦
                let law =
                  part-IsReservedIn s i a v l (ground arith) p.ram (ground (arith, p.above_start))
                    (omega (arith, p.fits)) in
                let reached = rw (e, inside, room) at h in
                let g : s' ≡ parted s i a = cc in
                subst (λ t. IsReservedIn s t a (mr.start + mr.len)) (sym g) law
          ]
    ]

mem_alloc_inv :
    (s s' : State) (sz align max_addr a : ℕ)
    → 0 < sz
    → mem_alloc s sz align max_addr ≡ ok (a, s')
    → (top : ℕ) × (i : ℕ) × (sz ≤ limit max_addr)
      × (find_highest_range_below s.mem_ranges (limit max_addr) ≡ ok top)
      × (mem_scan sz align s.mem_ranges top ≡ ok (i, a))
      × (split_range s i a e820_ram e820_reserved ≡ ok s')
unfolding mem_alloc
mem_alloc_inv s s' sz align max_addr a pos h =
    let some_size : (sz == 0) ≡ false = ground arith in
    elim (Bool-cases (ltb (limit max_addr) sz)) [
      | inl small ↦ absurd (let bad = rw (some_size, small) at h in cc)
      | inr big ↦
          let (top, found, h1) =
            bind_ok (find_highest_range_below s.mem_ranges (limit max_addr)) _
              (rw (some_size, big) at h) in
          let ((i, b), scanned, h2) = bind_ok (mem_scan sz align s.mem_ranges top) _ h1 in
          let (t, parts, h3) = bind_ok (split_range s i b e820_ram e820_reserved) _ h2 in
          (top, i, ground arith, found, cc, cc)
    ]

pub find_highest_range_below-IsTop :
    (max_addr top : ℕ) (mrs : List MemRange)
    → 0 < max_addr
    → max_addr ≤ 2 ^ 32
    → IsMapFrom 0 mrs
    → 0 < length mrs
    → length mrs ≤ 2 ^ 30
    → find_highest_range_below mrs max_addr ≡ ok top
    → IsTop max_addr mrs top
unfolding find_highest_range_below
find_highest_range_below-IsTop max_addr top mrs pos le m some_range small h =
    let (l, halved, ll, rest) =
      halve_lem max_addr mrs pos le m (length mrs) 0 (length mrs) some_range (omega arith)
        (omega arith) small (λ i il fits. il) in
    let h' = rw halved at h in walk_down_found max_addr mrs pos le m l top ll h'

-- It returns when some range ends by the limit, and with none below that one.
pub find_highest_range_below-ok :
    (max_addr i : ℕ) (mrs : List MemRange)
    → 0 < max_addr
    → max_addr ≤ 2 ^ 32
    → IsMapFrom 0 mrs
    → length mrs ≤ 2 ^ 30
    → i < length mrs
    → (range_at mrs i).start + (range_at mrs i).len ≤ max_addr
    → (top : ℕ) × (find_highest_range_below mrs max_addr ≡ ok top) × (i ≤ top)
unfolding find_highest_range_below
find_highest_range_below-ok max_addr i mrs pos le m small il fits =
    let (l, halved, ll, rest) =
      halve_lem max_addr mrs pos le m (length mrs) 0 (length mrs) (omega arith) (omega arith)
        (omega arith) small (λ i il fits. il) in
    let (top, found, ge) = walk_down-ok max_addr mrs pos le m l i ll (rest i il fits) fits in
    (top, rw halved found, ge)

-- The ranges below one that ends by the limit do so too.
ends_by :
    (mrs : List MemRange) (max_addr i top : ℕ)
    → IsMapFrom 0 mrs
    → i ≤ top
    → top < length mrs
    → (range_at mrs top).start + (range_at mrs top).len ≤ max_addr
    → (range_at mrs i).start + (range_at mrs i).len ≤ max_addr
ends_by mrs max_addr i top m le l end = elim (lt-cases i top) [
  | inl lt ↦ omega (arith, range_at_order 0 i top mrs m lt l)
  | inr ge ↦ let e : i ≡ top = omega arith in rw e end
]

-- The range that `mem_alloc` takes, which ends by the limit and has a place for the block.
pub mem_alloc_index :
    (s s' : State) (sz align max_addr a : ℕ)
    → IsValid s
    → IsRequest sz align max_addr
    → mem_alloc s sz align max_addr ≡ ok (a, s')
    → (i : ℕ) × (i < length s.mem_ranges)
      × ((range_at s.mem_ranges i).start + (range_at s.mem_ranges i).len ≤ limit max_addr)
      × (limit max_addr ≤ 2 ^ 32)
      × IsPlace sz align a (range_at s.mem_ranges i)
      × (split_range s i a e820_ram e820_reserved ≡ ok s')
mem_alloc_index s s' sz align max_addr a v r h =
    let (top, i, big, found, scanned, parts) = mem_alloc_inv s s' sz align max_addr a r.size h in
    let pos : 0 < limit max_addr = ground (arith, r.size) in
    let word : limit max_addr ≤ 2 ^ 32 = ground (arith, r.in_word) in
    let (top_in, top_end) =
      find_highest_range_below-IsTop (limit max_addr) top s.mem_ranges pos word v.laid_out
        v.some_range (omega (arith, v.room, v.in_word)) found in
    let (below, visited) = mem_scan_found sz align s.mem_ranges top i a scanned in
    let end = ends_by s.mem_ranges (limit max_addr) i top v.laid_out below top_in top_end in
    (
      i,
      omega arith,
      end,
      word,
      visit-IsPlace sz align a (range_at s.mem_ranges i) r.power r.size (omega arith) visited,
      parts,
    )

-- What `mem_alloc` does to a valid state, when it returns: the block that it gives is aligned and
-- ends by the limit (4 GiB if `max_addr` is 0), all of its addresses were available, the addresses
-- from its start on up to some `aend` are reserved afterwards, with `aend` less than `align` behind
-- the block's end, no other address changes its type, and the state is valid again.
pub mem_alloc_lem :
    (s s' : State) (sz align max_addr a : ℕ)
    → IsValid s
    → IsRequest sz align max_addr
    → mem_alloc s sz align max_addr ≡ ok (a, s')
    → (aend : ℕ) × (a % align ≡ 0)
      × (a + sz ≤ aend)
      × (aend < a + sz + align)
      × (aend ≤ limit max_addr)
      × ((x : ℕ) → a ≤ x → x < aend → type_of x s.mem_ranges ≡ some e820_ram)
      × IsReservedIn s s' a aend
mem_alloc_lem s s' sz align max_addr a v r h =
    let (i, i_in, end, word, place, parts) = mem_alloc_index s s' sz align max_addr a v r h in
    (
      (range_at s.mem_ranges i).start + (range_at s.mem_ranges i).len,
      place.multiple,
      place.fits,
      place.near,
      end,
      λ x lo hi.
          type_of-range_at 0 x i s.mem_ranges v.laid_out i_in (omega (arith, place.above_start)) hi
          ∙ ap some place.ram,
      split_range-IsReservedIn s s' sz align i a v i_in r.size (omega arith) place parts,
    )
