-- ===== src/Stage1/Load/Loop.antt =====
-- load_stage2 of stage1/main.c, from the loop over the segments on: what it has loaded when it returns.
use biefircate.Prelude.{
  ℕ, ◌+◌, ◌/◌, ◌^◌, ◌≤◌, ◌<◌, inl, inr, refl, ◌∙◌, Bool, List, [], ◌∷◌, arith, ltb, ◌==◌, ◌!=◌,
  Bool-cases,
}
use biefircate.Stage1.Load.{
  Firmware, Machine, with_slack, pages_of, fill_segment, load_segment, load_segments,
}
use biefircate.Stage1.Load.Elf.{Phdr, pt_load}
use biefircate.Stage1.Load.Files.{AllWords, IsLawful}
use biefircate.Stage1.Load.Segments.{
  Returns, Returns-bind, Returns-imp, Answer-cases, IsRoomy, AreRoomy, IsFilled, fill_segment_lem,
}
use biefircate.Stage1.Load.Extents.{IsStep, IsThere, allocated_lem, with_slack-IsSlackened}

module _ (F : Firmware) (file : ℕ → ℕ) (size : ℕ) (position : F.State → ℕ)
    (allocated : F.State → ℕ → Bool) (law : IsLawful F file size position allocated) where
  module _ (small : size < 2 ^ 32) where
    load_segment_lem :
        (phdrs : List Phdr) (ph_idx : ℕ) (p : Phdr) (m : Machine F)
        → IsRoomy p
        → p.p_offset < 2 ^ 32
        → Returns
            (λ u m'.
              IsStep F file size position allocated law small m m'
              × IsThere F file size position allocated law small p m')
            (load_segment F phdrs ph_idx p m)
    unfolding load_segment
    load_segment_lem phdrs ph_idx p m roomy word = elim (Bool-cases (p.p_type != pt_load)) [
      | inl other ↦ rw other (
        record { keeps = λ x h. refl; grows = λ q h. h },
        λ load. absurd (ground (arith, other, load)),
      )
      | inr load ↦
          let fits = roomy (ground (arith, load)) in
          elim (Bool-cases (ltb p.p_memsz p.p_filesz)) [
            | inl bad ↦ rw (load, bad) tt
            | inr le ↦
                let le' : p.p_filesz ≤ p.p_memsz = ground (arith, le) in
                let e = with_slack p in
                let sl = with_slack-IsSlackened p fits le' word in
                let le_e : e.filesz ≤ e.memsz = elim (Bool-cases (p.p_filesz == 0)) [
                  | inl z ↦ omega (arith, sl.filesz_eq.0 (ground (arith, z)))
                  | inr nz ↦
                      omega (arith, sl.filesz_eq.1 (λ z. ground (arith, z, nz)), sl.memsz_eq, le')
                ] in
                elim (Answer-cases (F.allocate_pages e.paddr (pages_of e.memsz) m.fw)) [
                  | inr (fw, call) ↦ rw (load, le, call) tt
                  | inl (u, fw, call) ↦
                      rw (load, le, call)
                        (Returns-imp
                          (λ u m'.
                            IsFilled F file size position allocated law e (record m { fw = fw }) m')
                          (λ u m'.
                            IsStep F file size position allocated law small m m'
                            × IsThere F file size position allocated law small p m')
                          (fill_segment F e (record m { fw = fw }))
                          (λ u m' filled.
                            allocated_lem F file size position allocated law small p e m m' fw le'
                              sl call filled)
                          (fill_segment_lem F file size position allocated law e
                            (record m { fw = fw }) le_e (omega (arith, sl.memsz_eq, fits))))
                ]
          ]
    ]

    -- What is loaded stays.
    IsThere-step :
        (p : Phdr) (m m' : Machine F)
        → IsStep F file size position allocated law small m m'
        → IsThere F file size position allocated law small p m
        → IsThere F file size position allocated law small p m'
    IsThere-step p m m' step there load =
        let (loaded, taken) = there load in
        (
          record {
            filesz_le = loaded.filesz_le;
            in_file = loaded.in_file;
            copied = λ i l.
                step.keeps (p.p_paddr + i) (taken i (omega (arith, l, loaded.filesz_le)))
                ∙ loaded.copied i l;
            zeroed = λ i lo hi. step.keeps (p.p_paddr + i) (taken i hi) ∙ loaded.zeroed i lo hi;
          },
          λ i l. step.grows ((p.p_paddr + i) / 4096) (taken i l),
        )

    IsStep-trans :
        (a b c : Machine F)
        → IsStep F file size position allocated law small a b
        → IsStep F file size position allocated law small b c
        → IsStep F file size position allocated law small a c
    IsStep-trans a b c ab bc = record {
      keeps = λ x h. bc.keeps x (ab.grows (x / 4096) h) ∙ ab.keeps x h;
      grows = λ q h. bc.grows q (ab.grows q h);
    }

    abbrev pub AreThere : List Phdr → Machine F → Type 0
    AreThere [] m = Unit
    AreThere (p ∷ ps) m = IsThere F file size position allocated law small p m × AreThere ps m

    pub load_segments_lem :
        (phdrs : List Phdr) (ph_idx : ℕ) (rest : List Phdr) (m : Machine F)
        → AreRoomy rest
        → AllWords rest
        → Returns
            (λ u m'. IsStep F file size position allocated law small m m' × AreThere rest m')
            (load_segments F phdrs ph_idx rest m)
    unfolding load_segments
    load_segments_lem phdrs ph_idx [] m r w = (record { keeps = λ x h. refl; grows = λ q h. h }, tt)
    load_segments_lem phdrs ph_idx (p ∷ rest) m (r, rs) (w, ws) =
        Returns-bind
          (λ u m1.
            IsStep F file size position allocated law small m m1
            × IsThere F file size position allocated law small p m1)
          (λ u m'. IsStep F file size position allocated law small m m' × AreThere (p ∷ rest) m')
          (load_segment F phdrs ph_idx p m) _ (load_segment_lem phdrs ph_idx p m r w)
          λ u m1 (step, there).
            Returns-imp
              (λ u m'. IsStep F file size position allocated law small m1 m' × AreThere rest m')
              (λ u m'.
                IsStep F file size position allocated law small m m' × AreThere (p ∷ rest) m')
              (load_segments F phdrs (ph_idx + 1) rest m1)
              (λ u m2 (step2, others).
                (IsStep-trans m m1 m2 step step2, (IsThere-step p m1 m2 step2 there, others)))
              (load_segments_lem phdrs (ph_idx + 1) rest m1 rs ws)
