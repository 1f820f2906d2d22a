-- ===== src/Stage2/Va/Init/Identity.antt =====
-- do_va_id_map of stage2/mem.c maps pages to themselves, with flags for their UEFI attributes.
use biefircate.Prelude.{
  ℕ, ◌+◌, ◌-◌, ◌*◌, ◌^◌, ◌≤◌, ◌<◌, ◌≡◌, ◌⊎◌, inl, inr, refl, ◌∙◌, true, false, ◌&&◌, arith, ltb,
  leb, Bool-cases, Ends, Ends-imp,
}
use biefircate.Stage2.Mem.Grows.{Grows-refl, Grows-trans}
use biefircate.Stage2.Vm.{State, page_size, do_va_map}
use biefircate.Stage2.Vm.Entries.{attr}
use biefircate.Stage2.Vm.Tables.{leaf, IsKept, IsTables}
use biefircate.Stage2.Vm.Map.{IsMapResult, do_va_map_lem}
use biefircate.Stage2.Va.Init.{uefi_attr_to_pte_flags, do_va_id_map}

pub flags-small : (a : ℕ) → uefi_attr_to_pte_flags a < 128
unfolding uefi_attr_to_pte_flags
flags-small a = ground arith

-- The page is mapped to itself, with some flags; or it may be mapped to nothing.
abbrev pub IsSelf : State → ℕ → Type 0
IsSelf s u = (f : ℕ) × (leaf s u ≡ u * page_size + attr f)

abbrev pub IsSelfOrNone : State → ℕ → Type 0
IsSelfOrNone s u = (leaf s u ≡ 0) ⊎ IsSelf s u

-- From one state to a later one, pages have been mapped to themselves, and nothing else.
pub record IsFilled (s s' : State) : Type 0 where
  pub tables : IsTables s'
  pub kept : IsKept s s'
  pub self : (u : ℕ) → u < 2 ^ 20 → IsSelf s u → IsSelf s' u
  pub self_or_none : (u : ℕ) → u < 2 ^ 20 → IsSelfOrNone s u → IsSelfOrNone s' u

pub IsFilled-refl : (s : State) → IsTables s → IsFilled s s
IsFilled-refl s t = record {
  tables = t;
  kept = (λ i. refl, refl, Grows-refl s.mem);
  self = λ u l h. h;
  self_or_none = λ u l h. h;
}

pub IsFilled-trans : (s s1 s2 : State) → IsFilled s s1 → IsFilled s1 s2 → IsFilled s s2
IsFilled-trans s s1 s2 a b = record {
  tables = b.tables;
  kept = (
    λ i. b.kept.0 i ∙ a.kept.0 i,
    b.kept.1 ∙ a.kept.1,
    Grows-trans s.mem s1.mem s2.mem a.kept.2 b.kept.2,
  );
  self = λ u l h. b.self u l (a.self u l h);
  self_or_none = λ u l h. b.self_or_none u l (a.self_or_none u l h);
}

-- The `c` pages from `v` on are filled in.
abbrev pub IsFilledAt : ℕ → ℕ → State → State → Type 0
IsFilledAt v c s s' = IsFilled s s' × ((u : ℕ) → v ≤ u → u < v + c → IsSelf s' u)

-- `do_va_id_map` on whole pages below 4 GiB, with the flags for some UEFI attributes.
pub do_va_id_map_lem :
    (v c f : ℕ) (s : State)
    → f < 128
    → IsTables s
    → v + c ≤ 2 ^ 20
    → Ends (IsFilledAt v c s) (do_va_id_map (v * 4096) (c * 4096) f s)
unfolding do_va_id_map
do_va_id_map_lem v c f s small t room =
    Ends-imp (IsMapResult v v c f s) (IsFilledAt v c s)
      (do_va_map (2 ^ 20) (v * 4096) (v * 4096) (c * 4096) f s)
      (λ s' (t', kept, mapped).
        let inside = λ (u : ℕ) (lo : v ≤ u) (hi : u < v + c).
          let here : (leb v u && ltb u (v + c)) ≡ true = ground arith in
          let same : v + (u - v) ≡ u = omega arith in
          let at : leaf s' u ≡ u * page_size + attr f =
            mapped u (omega arith) ∙ rw (here, same) refl in
          at in
        let outside = λ (u : ℕ) (ul : u < 2 ^ 20) (out : (leb v u && ltb u (v + c)) ≡ false).
          let at : leaf s' u ≡ leaf s u = mapped u ul ∙ rw out refl in at in
        (
          record {
            tables = t';
            kept = kept;
            self = λ u l (g, h). elim (Bool-cases (leb v u && ltb u (v + c))) [
              | inl e ↦ (f, inside u (ground arith) (ground arith))
              | inr e ↦ (g, outside u l e ∙ h)
            ];
            self_or_none = λ u l h. elim (Bool-cases (leb v u && ltb u (v + c))) [
              | inl e ↦ inr (f, inside u (ground arith) (ground arith))
              | inr e ↦ elim h [
                | inl gone ↦ inl (outside u l e ∙ gone)
                | inr (g, there) ↦ inr (g, outside u l e ∙ there)
              ]
            ];
          },
          λ u lo hi. (f, inside u lo hi),
        ))
      (do_va_map_lem (2 ^ 20) v v c f s t small room (omega arith) (omega arith))
