-- ===== src/Stage1/Bparm/Fini/Ranges.antt =====
-- What bmem_fini of stage1/bmem.c adds to the boot parameters.
use biefircate.Prelude.{
  ℕ, zero, suc, ◌-◌, ◌*◌, sym, subst, ◌+◌, ◌≤◌, ◌<◌, ◌≡◌, ◌⊎◌, inl, inr, refl, ap, ap₂, ◌∙◌, true,
  false, Option, none, some, List, [], ◌∷◌, ◌++◌, arith, ltb, leb, ◌==◌, if◌then◌else◌, Bool-cases,
  Option-cases, length, length-set, Outcome, ◌>>=◌, Gives, Gives-bind, Gives-imp, All, All-append,
}
use mathlib.Core.List.{append-nil, append_assoc}
use biefircate.Prelude.Words.{u32, u64}
use biefircate.Bparams.{Bparm, MemRange, Bdat, bp_mrng, sizeof_mem_range, e820_ram, e820_reserved}
use biefircate.Stage1.Bmem
use biefircate.Stage1.Bmem.{
  Blk, blk_at, remove_blk, shrink_low, take_low, boottime_scan, bmem_alloc_boottime, para_size,
  kibyte, bmem_max_addr, enough,
}
use biefircate.Stage1.Bmem.Layout.{blk_at_bounds}
use biefircate.Stage1.Bmem.Init.{Desc, MemType}
use biefircate.Stage1.Bparm.{State, sizeof_bparm, sizeof_ptr, fill, bparm_add, bparm_add_mem_range}
use biefircate.Stage1.Bparm.Chain.{Params, Holds, link-bmem, range_param, bparm_add_mem_range-Holds}
use biefircate.Stage1.Bparm.Fini.{
  e820_type_of, size_below, desc_range, add_uefi_mem_bparms, skip_low, add_blks, add_our_mem_bparms,
}

-- What the nodes of a list hold.
abbrev pub contents : Params → List Bparm
contents [] = []
contents ((a, b) ∷ ps) = b ∷ contents ps

pub contents-append : (ps qs : Params) → contents (ps ++ qs) ≡ contents ps ++ contents qs
contents-append [] qs = refl
contents-append ((a, b) ∷ ps) qs = ap (λ bs. b ∷ bs) (contents-append ps qs)

-- An allocation leaves as many blocks as there were, or fewer.
remove_blk-length : (bs : List Blk) (i : ℕ) → length (remove_blk bs i) ≤ length bs
unfolding remove_blk
remove_blk-length [] i = omega arith
remove_blk-length (b ∷ bs) zero = omega arith
remove_blk-length (b ∷ bs) (suc i) = omega (arith, remove_blk-length bs i)

shrink_low-length : (bs : List Blk) (i aend : ℕ) → length (shrink_low bs i aend) ≤ length bs
unfolding shrink_low
shrink_low-length bs i aend = elim (Bool-cases (aend == (blk_at bs i).end)) [
  | inl e ↦ rw e (remove_blk-length bs i)
  | inr e ↦ rw e (omega (arith, length-set bs i (record (blk_at bs i) { start = aend })))
]

abbrev pub IsFewer : Bmem.State → ℕ × Bmem.State → Type 0
IsFewer s (a, s') = length s'.blk ≤ length s.blk

pub bmem_alloc_boottime-Gives :
    (s : Bmem.State) (size align : ℕ) → Gives (IsFewer s) (bmem_alloc_boottime s size align)
unfolding bmem_alloc_boottime take_low
bmem_alloc_boottime-Gives s size align = elim (Option-cases (boottime_scan size align s.blk 0)) [
  | inl e ↦ rw (e, bmem_alloc_boottime) tt
  | inr ((i, astart), e) ↦ elim (Bool-cases (leb s.runtime_bmem_top astart)) [
    | inl high ↦ rw (e, high, bmem_alloc_boottime) tt
    | inr low ↦ rw (e, low, bmem_alloc_boottime) (shrink_low-length s.blk i (u32 (astart + size)))
  ]
]

pub fill-bmem : (a : ℕ) (d : Bdat) (s : State) → (fill a d s).bmem ≡ s.bmem
unfolding fill
fill-bmem a d s = elim (Option-cases (s.node a)) [
  | inl e ↦ rw (e, fill) refl
  | inr (n, e) ↦ rw (e, fill) refl
]

abbrev IsNotMore : State → Option ℕ × State → Type 0
IsNotMore s (bd, s') = length s'.bmem.blk ≤ length s.bmem.blk

bparm_add_mem_range-length :
    (s : State) (r : MemRange) → Gives (IsNotMore s) (bparm_add_mem_range r s)
unfolding bparm_add_mem_range bparm_add
bparm_add_mem_range-length s r = elim (Bool-cases (r.len == 0)) [
  | inl e ↦ rw e (omega arith)
  | inr e ↦ rw e (
      Gives-bind (λ (p : ℕ × State). length p.1.bmem.blk ≤ length s.bmem.blk) (IsNotMore s)
        (bparm_add bp_mrng sizeof_mem_range s) _
        (Gives-bind (IsFewer s.bmem) _
          (bmem_alloc_boottime s.bmem (sizeof_bparm + sizeof_mem_range) sizeof_ptr) _
          (bmem_alloc_boottime-Gives s.bmem (sizeof_bparm + sizeof_mem_range) sizeof_ptr)
          λ (a, c) le. rw (link-bmem s c a bp_mrng sizeof_mem_range) le)
        λ (bd, s1) le. rw (fill-bmem bd (Bdat.mem_range r) s1) le)
]

-- The parameters that some calls append to the list `ps` hold `new`, and there are no more blocks.
abbrev pub IsExtended : State → Params → List Bparm → State → Type 0
IsExtended s ps new s' =
    (added : Params) × Holds s' (ps ++ added)
    × (contents added ≡ new)
    × (length s'.bmem.blk ≤ length s.bmem.blk)

-- A range becomes a parameter unless it is empty.
abbrev pub one_range : MemRange → List Bparm
one_range r = if r.len == 0 then [] else range_param r ∷ []

abbrev pub IsAdded : State → Params → MemRange → Option ℕ × State → Type 0
IsAdded s ps r (bd, s') = IsExtended s ps (one_range r) s'

pub bparm_add_mem_range-Gives :
    (s : State) (ps : Params) (r : MemRange)
    → Holds s ps
    → Gives (IsAdded s ps r) (bparm_add_mem_range r s)
bparm_add_mem_range-Gives s ps r h =
    Gives-imp (IsNotMore s) (IsAdded s ps r) (bparm_add_mem_range r s)
      (λ (bd, s') e le. elim (bparm_add_mem_range-Holds s s' ps r bd h e) [
        | inl (empty, nothing, same) ↦
            let z : (r.len == 0) ≡ true = ground arith in
            ([], rw (same, append-nil ps) h, rw z refl, le)
        | inr (some_bytes, a, got, holds) ↦
            let z : (r.len == 0) ≡ false = ground arith in
            ((a, range_param r) ∷ [], holds, rw z refl, le)
      ])
      (bparm_add_mem_range-length s r)

-- A first part, and then the rest.
pub IsExtended-append :
    (s s1 s2 : State) (ps : Params) (new new' : List Bparm)
    → (e : IsExtended s ps new s1) → IsExtended s1 (ps ++ e.0) new' s2
    → IsExtended s ps (new ++ new') s2
IsExtended-append s s1 s2 ps new new' (added, h, is, le) (added', h', is', le') = (
  added ++ added',
  rw (← append_assoc ps added added') h',
  contents-append added added' ∙ ap₂ ◌++◌ is is',
  omega (arith, le, le'),
)

-- The part of a descriptor's memory below 1 MiB, where there is one.
abbrev pub part_below : Desc → ℕ → MemRange
part_below d e820_type = record {
  start = d.physical_start;
  len =
      (if ltb 0x100000 (d.physical_start + u64 (d.number_of_pages * 4096))
        then 0x100000
        else d.physical_start + u64 (d.number_of_pages * 4096))
      - d.physical_start;
  e820_type = e820_type;
  e820_ext_attr = 1;
  uefi_attr = d.attribute;
}

-- ACPI memory has the type 3 where it can be reclaimed and 4 where it is firmware storage, persistent
-- memory the type 7, and what is not usable otherwise the type 2.
unfoldable pub type_below : MemType → Option ℕ
type_below MemType.loader_code = none
type_below MemType.loader_data = none
type_below MemType.boot_services_code = none
type_below MemType.boot_services_data = none
type_below MemType.conventional = none
type_below MemType.acpi_reclaim = some 3
type_below MemType.acpi_nvs = some 4
type_below MemType.persistent = some 7
type_below MemType.other = some 2

-- The ranges below 1 MiB that are not usable memory.
unfoldable pub uefi_params : List Desc → List Bparm
uefi_params [] = []
uefi_params (d ∷ ds) =
    let rest = uefi_params ds in
    elim (type_below d.type) [ none ↦ rest | some t ↦ one_range (part_below d t) ++ rest ]

type_below_lem : (t : MemType) → type_below t ≡ e820_type_of t
unfolding e820_type_of type_below
type_below_lem MemType.loader_code = refl
type_below_lem MemType.loader_data = refl
type_below_lem MemType.boot_services_code = refl
type_below_lem MemType.boot_services_data = refl
type_below_lem MemType.conventional = refl
type_below_lem MemType.acpi_reclaim = refl
type_below_lem MemType.acpi_nvs = refl
type_below_lem MemType.persistent = refl
type_below_lem MemType.other = refl

uefi_params-none :
    (d : Desc) (ds : List Desc) → e820_type_of d.type ≡ none → uefi_params (d ∷ ds) ≡ uefi_params ds
unfolding uefi_params
uefi_params-none d ds e = let e' = type_below_lem d.type ∙ e in rw (e', uefi_params) refl

uefi_params-some :
    (d : Desc) (ds : List Desc) (t : ℕ)
    → e820_type_of d.type ≡ some t
    → uefi_params (d ∷ ds) ≡ one_range (part_below d t) ++ uefi_params ds
unfolding uefi_params
uefi_params-some d ds t e = let e' = type_below_lem d.type ∙ e in rw (e', uefi_params) refl

-- Above 1 MiB there is no such part.
uefi_params-high :
    (d : Desc) (ds : List Desc)
    → leb bmem_max_addr d.physical_start ≡ true
    → uefi_params (d ∷ ds) ≡ uefi_params ds
unfolding uefi_params
uefi_params-high d ds high = elim (Option-cases (type_below d.type)) [
  | inl e ↦ rw (e, uefi_params) refl
  | inr (t, e) ↦
      let empty : ((part_below d t).len == 0) ≡ true = ground (arith, high) in
      rw (e, uefi_params) (rw empty refl)
]

desc_range_lem :
    (d : Desc) (t : ℕ)
    → leb bmem_max_addr d.physical_start ≡ false
    → desc_range d t ≡ part_below d t
desc_range_lem d t low =
    let len : size_below d ≡ (part_below d t).len = ground (arith, low) in
    ap (λ (n : ℕ). record (desc_range d t) { len = n }) len

pub add_uefi_mem_bparms-Gives :
    (ds : List Desc) (s : State) (ps : Params)
    → Holds s ps
    → Gives (IsExtended s ps (uefi_params ds)) (add_uefi_mem_bparms ds s)
unfolding add_uefi_mem_bparms uefi_params
add_uefi_mem_bparms-Gives [] s ps h = ([], rw (append-nil ps) h, refl, omega arith)
add_uefi_mem_bparms-Gives (d ∷ ds) s ps h = elim (Bool-cases (leb bmem_max_addr d.physical_start)) [
  | inl high ↦
      subst (λ (new : List Bparm). Gives (IsExtended s ps new) (add_uefi_mem_bparms (d ∷ ds) s))
        (sym (uefi_params-high d ds high))
        (rw (high, add_uefi_mem_bparms) (add_uefi_mem_bparms-Gives ds s ps h))
  | inr low ↦ elim (Option-cases (e820_type_of d.type)) [
    | inl usable ↦
        subst (λ (new : List Bparm). Gives (IsExtended s ps new) (add_uefi_mem_bparms (d ∷ ds) s))
          (sym (uefi_params-none d ds usable))
          (rw (low, usable, add_uefi_mem_bparms) (add_uefi_mem_bparms-Gives ds s ps h))
    | inr (t, kind) ↦
        subst (λ (new : List Bparm). Gives (IsExtended s ps new) (add_uefi_mem_bparms (d ∷ ds) s))
          (sym (uefi_params-some d ds t kind))
          (rw (low, kind, add_uefi_mem_bparms)
            (Gives-bind (IsAdded s ps (part_below d t))
              (IsExtended s ps (one_range (part_below d t) ++ uefi_params ds))
              (bparm_add_mem_range (desc_range d t) s) _
              (subst
                (λ (r : MemRange). Gives (IsAdded s ps (part_below d t)) (bparm_add_mem_range r s))
                (sym (desc_range_lem d t low)) (bparm_add_mem_range-Gives s ps (part_below d t) h))
              λ (bd, s1) e.
                Gives-imp (IsExtended s1 (ps ++ e.0) (uefi_params ds)) _ (add_uefi_mem_bparms ds s1)
                  (λ s2 _ e'. IsExtended-append s s1 s2 ps _ (uefi_params ds) e e')
                  (add_uefi_mem_bparms-Gives ds s1 (ps ++ e.0) e.1)))
  ]
]

-- A nonempty range below 1 MiB, available or reserved.
abbrev pub IsOwn : Bparm → Type 0
IsOwn b =
    (r : MemRange) × (b ≡ range_param r)
    × (0 < r.len)
    × (r.start + r.len ≤ bmem_max_addr)
    × ((r.e820_type ≡ e820_ram) ⊎ (r.e820_type ≡ e820_reserved))

abbrev pub IsExtendedByOwn : State → Params → State → Type 0
IsExtendedByOwn s ps s' = (new : List Bparm) × All IsOwn new × IsExtended s ps new s'

one_range-IsOwn :
    (r : MemRange)
    → r.start + r.len ≤ bmem_max_addr
    → (r.e820_type ≡ e820_ram) ⊎ (r.e820_type ≡ e820_reserved)
    → All IsOwn (one_range r)
one_range-IsOwn r fits kind = elim (Bool-cases (r.len == 0)) [
  | inl e ↦ rw e tt
  | inr e ↦ rw e ((r, refl, ground arith, fits, kind), tt)
]

IsExtendedByOwn-append :
    (s s1 s2 : State) (ps : Params) (new : List Bparm)
    → All IsOwn new
    → (e : IsExtended s ps new s1) → IsExtendedByOwn s1 (ps ++ e.0) s2
    → IsExtendedByOwn s ps s2
IsExtendedByOwn-append s s1 s2 ps new own e (new', own', e') =
    (new ++ new', All-append _ new new' own own', IsExtended-append s s1 s2 ps new new' e e')

IsExtendedByOwn-none : (s : State) (ps : Params) → Holds s ps → IsExtendedByOwn s ps s
IsExtendedByOwn-none s ps h = ([], tt, ([], rw (append-nil ps) h, refl, omega arith))

-- Some code that goes on after a range has been added.
then_add :
    (s : State) (ps : Params) (r : MemRange) (k : Option ℕ × State → Outcome State)
    → Holds s ps
    → r.start + r.len ≤ bmem_max_addr
    → (r.e820_type ≡ e820_ram) ⊎ (r.e820_type ≡ e820_reserved)
    → ((bd : Option ℕ) (s1 : State) (qs : Params)
        → Holds s1 qs
        → length s1.bmem.blk ≤ length s.bmem.blk
        → Gives (IsExtendedByOwn s1 qs) (k (bd, s1)))
    → Gives (IsExtendedByOwn s ps) (bparm_add_mem_range r s >>= k)
then_add s ps r k h fits kind later =
    Gives-bind (IsAdded s ps r) (IsExtendedByOwn s ps) (bparm_add_mem_range r s) k
      (bparm_add_mem_range-Gives s ps r h)
      λ (bd, s1) e.
        Gives-imp (IsExtendedByOwn s1 (ps ++ e.0)) (IsExtendedByOwn s ps) (k (bd, s1))
          (λ s2 _ e'.
            IsExtendedByOwn-append s s1 s2 ps (one_range r) (one_range-IsOwn r fits kind) e e')
          (later bd s1 (ps ++ e.0) e.1 e.3)

add_blks-Gives :
    (rounds idx : ℕ) (s : State) (ps : Params)
    → Holds s ps
    → length s.bmem.blk ≤ idx + rounds
    → Gives (IsExtendedByOwn s ps) (add_blks rounds idx s)
unfolding add_blks
add_blks-Gives zero idx s ps h fuel =
    let over : ltb idx (length s.bmem.blk) ≡ false = ground arith in
    rw over (IsExtendedByOwn-none s ps h)
add_blks-Gives (suc rounds) idx s ps h fuel = elim (Bool-cases (ltb idx (length s.bmem.blk))) [
  | inl more ↦
      let b = blk_at s.bmem.blk idx in
      let (low, mid, high, top) =
        blk_at_bounds 4096 idx s.bmem.blk h.valid.laid_out (ground arith) in
      rw (more, add_blks)
        (then_add s ps _ _ h (omega (arith, low, mid, high, top)) (inl refl) λ bd s1 qs h1 le1.
          then_add s1 qs _ _ h1 (omega (arith, low, mid, high, top)) (inr refl) λ bd' s2 rs h2 le2.
            add_blks-Gives rounds (idx + 1) s2 rs h2 (omega (arith, le1, le2, fuel)))
  | inr over ↦ rw (over, add_blks) (IsExtendedByOwn-none s ps h)
]

pub add_our_mem_bparms-Gives :
    (s : State) (ps : Params) → Holds s ps → Gives (IsExtendedByOwn s ps) (add_our_mem_bparms s)
unfolding add_our_mem_bparms
add_our_mem_bparms-Gives s ps h =
    then_add s ps _ _ h (omega (arith, h.valid.top_in)) (inl refl) λ bd s1 qs h1 le1.
      add_blks-Gives (length s1.bmem.blk) (skip_low s1.bmem.blk s1.bmem.runtime_bmem_top 0) s1 qs h1
        (omega arith)
