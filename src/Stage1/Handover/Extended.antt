-- ===== src/Stage1/Handover/Extended.antt =====
-- What prepare_to_hand_over of stage1/main.c adds to the boot parameters.
use biefircate.Prelude.{
  ℕ, ◌+◌, ◌-◌, ◌*◌, ◌^◌, ◌≤◌, ◌<◌, ◌≡◌, refl, ap, sym, subst, true, false, ◌&&◌, inl, inr, List, [],
  ◌∷◌, ◌++◌, arith, ltb, leb, ◌==◌, ◌!=◌, if◌then◌else◌, Bool-cases, All, Gives, Gives-bind,
  Gives-imp,
}
use mathlib.Core.List.{append-nil}
use biefircate.Prelude.Words.{sub_w}
use biefircate.Bparams.{Bparm, MemRange}
use biefircate.Stage1.Bmem.{bmem_max_addr}
use biefircate.Stage1.Bmem.Init.{Desc}
use biefircate.Stage1.Bparm.{State, bparm_add_mem_range}
use biefircate.Stage1.Bparm.Chain.{Params, Holds}
use biefircate.Stage1.Bparm.Fini.Ranges.{
  IsExtended, one_range, IsAdded, bparm_add_mem_range-Gives, IsExtended-append,
}
use biefircate.Stage1.Handover.{type_above, end_of, start_above, range_above, add_extended}

-- A descriptor as UEFI documents them: some pages, in 64 bits.
abbrev pub IsSane : Desc → Type 0
IsSane d = (0 < d.number_of_pages) × (d.physical_start + d.number_of_pages * 4096 ≤ 2 ^ 64)

-- The part of a descriptor's memory from 1 MiB on, where there is one, with its type.
abbrev pub part_above : Desc → MemRange
part_above d = record {
  start = if ltb d.physical_start 0x100000 then 0x100000 else d.physical_start;
  len =
      d.physical_start
      + d.number_of_pages * 4096
      - (if ltb d.physical_start 0x100000 then 0x100000 else d.physical_start);
  e820_type = type_above d.type;
  e820_ext_attr = 1;
  uefi_attr = d.attribute;
}

unfoldable pub extended_params : List Desc → List Bparm
extended_params [] = []
extended_params (d ∷ ds) = one_range (part_above d) ++ extended_params ds

range_above_lem :
    (d : Desc)
    → IsSane d
    → (leb (end_of d) bmem_max_addr && (end_of d != 0)) ≡ false
    → range_above d ≡ part_above d
unfolding end_of
range_above_lem d (some_pages, fits) h =
    let len : sub_w 64 (end_of d) (start_above d)
        ≡ d.physical_start + d.number_of_pages * 4096 - start_above d =
      ground (arith, some_pages, fits, h) in
    ap (λ (n : ℕ). record (range_above d) { len = n }) len

part_above-none :
    (d : Desc)
    → IsSane d
    → (leb (end_of d) bmem_max_addr && (end_of d != 0)) ≡ true
    → one_range (part_above d) ≡ []
unfolding end_of
part_above-none d (some_pages, fits) h =
    let empty : ((part_above d).len == 0) ≡ true = ground (arith, some_pages, fits, h) in
    rw empty refl

pub add_extended-Gives :
    (ds : List Desc) (s : State) (ps : Params)
    → All IsSane ds
    → Holds s ps
    → Gives (IsExtended s ps (extended_params ds)) (add_extended ds s)
unfolding add_extended extended_params
add_extended-Gives [] s ps sane h = ([], rw (append-nil ps) h, refl, omega arith)
add_extended-Gives (d ∷ ds) s ps (sane, others) h =
    elim (Bool-cases (leb (end_of d) bmem_max_addr && (end_of d != 0))) [
      | inl low ↦
          rw (low, add_extended)
            (subst
              (λ (new : List Bparm).
                Gives (IsExtended s ps (new ++ extended_params ds)) (add_extended ds s))
              (sym (part_above-none d sane low)) (add_extended-Gives ds s ps others h))
      | inr high ↦
          rw (high, add_extended)
            (Gives-bind (IsAdded s ps (part_above d))
              (IsExtended s ps (one_range (part_above d) ++ extended_params ds))
              (bparm_add_mem_range (range_above d) s) _
              (subst
                (λ (r : MemRange). Gives (IsAdded s ps (part_above d)) (bparm_add_mem_range r s))
                (sym (range_above_lem d sane high))
                (bparm_add_mem_range-Gives s ps (part_above d) h))
              λ (bd, s1) e.
                Gives-imp (IsExtended s1 (ps ++ e.0) (extended_params ds)) _ (add_extended ds s1)
                  (λ s2 _ e'. IsExtended-append s s1 s2 ps _ (extended_params ds) e e')
                  (add_extended-Gives ds s1 (ps ++ e.0) others e.1))
    ]
