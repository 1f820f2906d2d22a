-- ===== src/Stage1/Load/Image.antt =====
-- load_stage2 of stage1/main.c: what is in memory when it returns.
use biefircate.Prelude.{
  ℕ, ◌*◌, ◌^◌, ◌<◌, ◌≡◌, inl, inr, refl, sym, ◌∙◌, subst, Bool, true, List, [], ◌∷◌, Bool-cases,
}
use biefircate.Stage1.Load.{
  Answer, Firmware, Bytes, Name, Machine, Ending, bind, close_both, read_stage2, seek_stage2,
  load_segments, is_loadable, load_elf, load_prog, open_stage2, load_stage2,
}
use biefircate.Stage1.Load.Elf.{Ehdr, Phdr, pt_load, ehdr_of, phdrs_of, sizeof_ehdr, sizeof_phdr}
use biefircate.Stage1.Load.Files.{slice, slice-IsBytes, phdrs_of-AllWords, IsLawful}
use biefircate.Stage1.Load.Segments.{
  Returns, Returns-bind, Returns-imp, Answer-cases, AreRoomy, IsLoaded, read_stage2_lem,
  seek_stage2_lem,
}
use biefircate.Stage1.Load.Loop.{AreThere, load_segments_lem}

-- The headers that are in the file.
abbrev pub header_in : (ℕ → ℕ) → Ehdr
header_in file = ehdr_of (slice file 0 sizeof_ehdr)

abbrev pub headers_at : (ℕ → ℕ) → Ehdr → List Phdr
headers_at file h = phdrs_of h.e_phnum (slice file h.e_phoff (h.e_phnum * sizeof_phdr))

abbrev AreLoaded : (ℕ → ℕ) → ℕ → List Phdr → Bytes → Type 0
AreLoaded file size [] byte = Unit
AreLoaded file size (p ∷ ps) byte =
    (p.p_type ≡ pt_load → IsLoaded file size p byte) × AreLoaded file size ps byte

-- The file's header is in order, the entry point is its, and each segment of the type PT_LOAD is loaded.
pub record IsImage (file : ℕ → ℕ) (size entry : ℕ) (byte : Bytes) : Type 0 where
  pub loadable : is_loadable (header_in file) ≡ true
  pub entry_eq : entry ≡ (header_in file).e_entry
  pub loaded : AreLoaded file size (headers_at file (header_in file)) byte

module _ (F : Firmware) (file : ℕ → ℕ) (size : ℕ) (position : F.State → ℕ)
    (allocated : F.State → ℕ → Bool) (law : IsLawful F file size position allocated)
    (small : size < 2 ^ 32) where
  AreThere-AreLoaded :
      (ps : List Phdr) (m : Machine F)
      → AreThere F file size position allocated law small ps m
      → AreLoaded file size ps m.byte
  AreThere-AreLoaded [] m h = tt
  AreThere-AreLoaded (p ∷ ps) m (there, others) =
      (λ load. (there load).0, AreThere-AreLoaded ps m others)

  abbrev IsElfLoaded : Ehdr → ℕ → Machine F → Type 0
  IsElfLoaded h entry m =
      (is_loadable h ≡ true) × (entry ≡ h.e_entry) × AreLoaded file size (headers_at file h) m.byte

  load_elf_lem :
      (h : Ehdr) (m : Machine F)
      → AreRoomy (headers_at file h)
      → Returns (IsElfLoaded h) (load_elf F h m)
  unfolding load_elf
  load_elf_lem h m roomy = elim (Bool-cases (is_loadable h)) [
    | inr bad ↦ rw bad tt
    | inl good ↦ rw good (
        Returns-bind (λ u m1. position m1.fw ≡ h.e_phoff) (IsElfLoaded h)
          (seek_stage2 F h.e_phoff m) _
          (Returns-imp _ _ (seek_stage2 F h.e_phoff m) (λ u m1 s. s.0)
            (seek_stage2_lem F file size position allocated law h.e_phoff m))
          λ u m1 at.
            Returns-bind (λ ps m2. ps ≡ slice file h.e_phoff (h.e_phnum * sizeof_phdr))
              (IsElfLoaded h) (read_stage2 F (h.e_phnum * sizeof_phdr) m1) _
              (Returns-imp _ _ (read_stage2 F (h.e_phnum * sizeof_phdr) m1)
                (λ ps m2 r. subst (λ (k : ℕ). ps ≡ slice file k (h.e_phnum * sizeof_phdr)) at r.0)
                (read_stage2_lem F file size position allocated law (h.e_phnum * sizeof_phdr) m1))
              λ ps m2 is.
                subst
                  (λ (ps : List ℕ). Returns (IsElfLoaded h) (
                    bind F (load_segments F (phdrs_of h.e_phnum ps) 0 (phdrs_of h.e_phnum ps) m2)
                      (λ _ m3. Ending.returned h.e_entry (close_both F m3))))
                  (sym is)
                  (Returns-bind (λ u m3. AreLoaded file size (headers_at file h) m3.byte)
                    (IsElfLoaded h) (load_segments F (headers_at file h) 0 (headers_at file h) m2) _
                    (Returns-imp _ _ (load_segments F (headers_at file h) 0 (headers_at file h) m2)
                      (λ u m3 r. AreThere-AreLoaded (headers_at file h) m3 r.1)
                      (load_segments_lem F file size position allocated law small
                        (headers_at file h) 0 (headers_at file h) m2 roomy
                        (phdrs_of-AllWords h.e_phnum
                          (slice file h.e_phoff (h.e_phnum * sizeof_phdr))
                          (slice-IsBytes file h.e_phoff (h.e_phnum * sizeof_phdr) law.bytes))))
                    λ u m3 loaded. (good, refl, loaded)))
  ]

  abbrev IsImageIn : ℕ → Machine F → Type 0
  IsImageIn entry m = IsImage file size entry m.byte

  load_prog_lem :
      (m : Machine F)
      → AreRoomy (headers_at file (header_in file))
      → position m.fw ≡ 0
      → Returns IsImageIn (load_prog F m)
  unfolding load_prog
  load_prog_lem m roomy start =
      Returns-bind (λ bs m1. bs ≡ slice file 0 sizeof_ehdr) IsImageIn (read_stage2 F sizeof_ehdr m)
        _
        (Returns-imp _ _ (read_stage2 F sizeof_ehdr m)
          (λ bs m1 r. subst (λ (k : ℕ). bs ≡ slice file k sizeof_ehdr) start r.0)
          (read_stage2_lem F file size position allocated law sizeof_ehdr m))
        λ bs m1 is.
          subst (λ (bs : List ℕ). Returns IsImageIn (load_elf F (ehdr_of bs) m1)) (sym is)
            (Returns-imp (IsElfLoaded (header_in file)) IsImageIn (load_elf F (header_in file) m1)
              (λ entry m2 (good, e, loaded). record {
                loadable = good;
                entry_eq = e;
                loaded = loaded;
              })
              (load_elf_lem (header_in file) m1 roomy))

  open_stage2_lem : (s s' : F.State) → open_stage2 F s ≡ Answer.success tt s' → position s' ≡ 0
  unfolding open_stage2
  open_stage2_lem s s' h = elim (Answer-cases (F.open_prog Name.stage2 s)) [
    | inl (u, s1, e) ↦ law.open_prog Name.stage2 s s' (e ∙ rw (e, open_stage2) at h)
    | inr (s1, e) ↦ elim (Answer-cases (F.open_prog Name.stage2_alt s1)) [
      | inl (u, s2, e2) ↦ law.open_prog Name.stage2_alt s1 s' (e2 ∙ rw (e, e2, open_stage2) at h)
      | inr (s2, e2) ↦ law.open_prog Name.stage2_alt_alt s2 s' (rw (e, e2, open_stage2) at h)
    ]
  ]

  -- `load_stage2`, where the file is shorter than 4 GiB, its program headers of the type PT_LOAD describe
  -- segments of less than 4 GiB with the slack before them in their first page, and the firmware reads,
  -- seeks and allocates as documented: if it returns, then the ELF header of the file is in order, the
  -- entry point is that of the header, and each segment of the type PT_LOAD is in memory at its physical
  -- address: it has no more bytes in the file than in memory, its part in the file lies within the file,
  -- these bytes are copied, and the rest is zero, whatever the order of the segments and the other ones.
  pub load_stage2_lem :
      (m : Machine F)
      → AreRoomy (headers_at file (header_in file))
      → Returns IsImageIn (load_stage2 F m)
  unfolding load_stage2
  load_stage2_lem m roomy = elim (Answer-cases (F.handle_protocol m.fw)) [
    | inr (s, e) ↦ rw (e, load_stage2) tt
    | inl (u, s1, e) ↦ elim (Answer-cases (F.open_volume s1)) [
      | inr (s, e1) ↦ rw (e, e1, load_stage2) tt
      | inl (u, s2, e1) ↦ elim (Answer-cases (open_stage2 F s2)) [
        | inr (s, e2) ↦ rw (e, e1, e2, load_stage2) tt
        | inl (u, s3, e2) ↦ elim (Answer-cases (F.file_info s3)) [
          | inr (s, e3) ↦ rw (e, e1, e2, e3, load_stage2) tt
          | inl (u, s4, e3) ↦
              rw (e, e1, e2, e3, load_stage2)
                (load_prog_lem (record m { fw = s4 }) roomy
                  (law.file_info s3 s4 e3 ∙ open_stage2_lem s2 s3 e2))
        ]
      ]
    ]
  ]
