-- ===== src/Stage1/Load/Served.antt =====
-- load_stage2 of stage1/main.c loads a file that is in order, unless the firmware has no memory for it.
use biefircate.Prelude.{
  ℕ, ◌+◌, ◌*◌, ◌^◌, ◌%◌, ◌≤◌, ◌<◌, ◌≡◌, ◌⊎◌, inl, inr, refl, ap, sym, ◌∙◌, subst, true, false, List,
  [], ◌∷◌, arith, ltb, ◌==◌, ◌!=◌, length, Bool-cases,
}
use biefircate.Stage1.Load.{
  Answer, Firmware, Extent, Name, Reason, Machine, Ending, bind, with_slack, pages_of, read_stage2,
  seek_stage2, fill_segment, load_segment, load_segments, is_loadable, load_elf, load_prog,
  open_stage2, load_stage2,
}
use biefircate.Stage1.Load.Elf.{Ehdr, Phdr, pt_load, phdrs_of, ehdr_of, sizeof_ehdr, sizeof_phdr}
use biefircate.Stage1.Load.Files.{slice, length-slice}
use biefircate.Stage1.Load.Segments.{Answer-cases}
use biefircate.Stage1.Load.Extents.{with_slack-IsSlackened}
use biefircate.Stage1.Load.Image.{header_in, headers_at}

-- The call returns what it should, or no memory was left.
abbrev pub Served {ℓ} : {F : Firmware} {A : Type ℓ} → (A → Machine F → Type 0) → Ending F A → Type 0
Served P (Ending.returned a m) = P a m
Served P (Ending.gave_up why m) = why ≡ Reason.no_memory

Served-bind {ℓ κ} :
    {F : Firmware} {A : Type ℓ} {B : Type κ} (P : A → Machine F → Type 0)
    (Q : B → Machine F → Type 0) (step : Ending F A) (k : A → Machine F → Ending F B)
    → Served P step
    → ((a : A) (m : Machine F) → P a m → Served Q (k a m))
    → Served Q (bind F step k)
Served-bind P Q (Ending.returned a m) k h f = f a m h
Served-bind P Q (Ending.gave_up why m) k h f = h

Served-imp {ℓ} :
    {F : Firmware} {A : Type ℓ} (P Q : A → Machine F → Type 0) (step : Ending F A)
    → ((a : A) (m : Machine F) → P a m → Q a m)
    → Served P step
    → Served Q step
Served-imp P Q (Ending.returned a m) f h = f a m h
Served-imp P Q (Ending.gave_up why m) f h = h

-- The program's file is there under one of the names, and what lies within it can be read.
pub record IsServing (F : Firmware) (file : ℕ → ℕ) (size : ℕ) (position : F.State → ℕ)
    : Type 0 where
  pub handle_protocol :
      (s : F.State) → (s' : F.State) × (F.handle_protocol s ≡ Answer.success tt s')
  pub open_volume : (s : F.State) → (s' : F.State) × (F.open_volume s ≡ Answer.success tt s')
  pub open_prog :
      (s : F.State) → (s' : F.State) × (F.open_prog Name.stage2_alt_alt s ≡ Answer.success tt s')
  pub at_start :
      (name : Name) (s s' : F.State) → F.open_prog name s ≡ Answer.success tt s' → position s' ≡ 0
  pub file_info :
      (s : F.State)
      → (s' : F.State) × (F.file_info s ≡ Answer.success tt s') × (position s' ≡ position s)
  pub read :
      (n : ℕ) (s : F.State)
      → position s + n ≤ size
      → (s' : F.State) × (F.read n s ≡ Answer.success (slice file (position s) n) s')
  pub set_position :
      (pos : ℕ) (s : F.State)
      → (s' : F.State) × (F.set_position pos s ≡ Answer.success tt s') × (position s' ≡ pos)

-- A segment of the type PT_LOAD is in order if it has no more bytes in the file than in memory, if
-- these lie in the file, as far behind its start as the first byte in its page, and if it is less
-- than 4 GiB with its slack.
pub record IsGood (size : ℕ) (p : Phdr) : Type 0 where
  pub filesz_le : p.p_filesz ≤ p.p_memsz
  pub roomy : p.p_paddr % 4096 + p.p_memsz < 2 ^ 32
  pub word : p.p_offset < 2 ^ 32
  pub behind : p.p_paddr % 4096 ≤ p.p_offset
  pub within : p.p_offset + p.p_filesz ≤ size

abbrev pub AreGood : ℕ → List Phdr → Type 0
AreGood size [] = Unit
AreGood size (p ∷ ps) = (p.p_type ≡ pt_load → IsGood size p) × AreGood size ps

-- The headers are in the file and in order.
pub record IsInOrder (file : ℕ → ℕ) (size : ℕ) : Type 0 where
  pub has_header : sizeof_ehdr ≤ size
  pub loadable : is_loadable (header_in file) ≡ true
  pub has_headers : (header_in file).e_phoff + (header_in file).e_phnum * sizeof_phdr ≤ size
  pub good : AreGood size (headers_at file (header_in file))

with_slack-within :
    (size : ℕ) (p : Phdr)
    → IsGood size p
    → ((with_slack p).filesz ≡ 0) ⊎ ((with_slack p).off + (with_slack p).filesz ≤ size)
with_slack-within size p g =
    let sl = with_slack-IsSlackened p g.roomy g.filesz_le g.word in
    elim (Bool-cases (p.p_filesz == 0)) [
      | inl z ↦ inl (sl.filesz_eq.0 (ground (arith, z)))
      | inr nz ↦
          let len = sl.filesz_eq.1 (λ z. ground (arith, z, nz)) in
          inr (omega (arith, len, sl.off_eq g.behind, g.within))
    ]

module _ (F : Firmware) (file : ℕ → ℕ) (size : ℕ) (position : F.State → ℕ)
    (served : IsServing F file size position) where
  abbrev Done {ℓ} : {A : Type ℓ} → A → Machine F → Type 0
  Done a m = Unit

  read_stage2-Served :
      (n : ℕ) (m : Machine F)
      → position m.fw + n ≤ size
      → Served (λ bs m'. bs ≡ slice file (position m.fw) n) (read_stage2 F n m)
  unfolding read_stage2 slice
  read_stage2-Served n m within = elim (Bool-cases (n == 0)) [
    | inl z ↦
        let n0 : n ≡ 0 = ground (arith, z) in
        rw z (subst (λ l. [] ≡ slice file (position m.fw) l) (sym n0) refl)
    | inr some_bytes ↦
        let (s, e) = served.read n m.fw within in
        let full : (length (slice file (position m.fw) n) != n) ≡ false =
          ground (arith, length-slice file (position m.fw) n) in
        rw (some_bytes, e, full) refl
  ]

  seek_stage2-Served :
      (pos : ℕ) (m : Machine F) → Served (λ u m'. position m'.fw ≡ pos) (seek_stage2 F pos m)
  unfolding seek_stage2
  seek_stage2-Served pos m = let (s, e, at) = served.set_position pos m.fw in rw (e, seek_stage2) at

  fill_segment-Served :
      (e : Extent) (m : Machine F)
      → (e.filesz ≡ 0) ⊎ (e.off + e.filesz ≤ size)
      → Served Done (fill_segment F e m)
  unfolding fill_segment
  fill_segment-Served e m within = elim (Bool-cases (e.filesz == 0)) [
    | inl z ↦ rw z tt
    | inr some_bytes ↦
        let inside : e.off + e.filesz ≤ size = ground (arith, within, some_bytes) in
        rw some_bytes (
          Served-bind Done Done (bind F (seek_stage2 F e.off m) (λ _. read_stage2 F e.filesz)) _
            (Served-bind (λ u m1. position m1.fw ≡ e.off) Done (seek_stage2 F e.off m) _
              (seek_stage2-Served e.off m)
              λ u m1 at.
                Served-imp (λ bs m2. bs ≡ slice file (position m1.fw) e.filesz) Done
                  (read_stage2 F e.filesz m1) (λ bs m2 is. tt)
                  (read_stage2-Served e.filesz m1 (omega (arith, at, inside))))
            λ bs m2 d. tt)
  ]

  load_segment-Served :
      (phdrs : List Phdr) (ph_idx : ℕ) (p : Phdr) (m : Machine F)
      → (p.p_type ≡ pt_load → IsGood size p)
      → Served Done (load_segment F phdrs ph_idx p m)
  unfolding load_segment
  load_segment-Served phdrs ph_idx p m good = elim (Bool-cases (p.p_type != pt_load)) [
    | inl other ↦ rw other tt
    | inr load ↦
        let g = good (ground (arith, load)) in
        let le : ltb p.p_memsz p.p_filesz ≡ false = ground (arith, g.filesz_le) in
        let e = with_slack p in
        elim (Answer-cases (F.allocate_pages e.paddr (pages_of e.memsz) m.fw)) [
          | inr (fw, call) ↦ rw (load, le, call) refl
          | inl (u, fw, call) ↦
              rw (load, le, call)
                (fill_segment-Served e (record m { fw = fw }) (with_slack-within size p g))
        ]
  ]

  load_segments-Served :
      (phdrs : List Phdr) (ph_idx : ℕ) (rest : List Phdr) (m : Machine F)
      → AreGood size rest
      → Served Done (load_segments F phdrs ph_idx rest m)
  unfolding load_segments
  load_segments-Served phdrs ph_idx [] m g = tt
  load_segments-Served phdrs ph_idx (p ∷ rest) m (g, gs) =
      Served-bind Done Done (load_segment F phdrs ph_idx p m) _
        (load_segment-Served phdrs ph_idx p m g)
        λ u m1 d. load_segments-Served phdrs (ph_idx + 1) rest m1 gs

  load_elf-Served :
      (h : Ehdr) (m : Machine F)
      → is_loadable h ≡ true
      → h.e_phoff + h.e_phnum * sizeof_phdr ≤ size
      → AreGood size (headers_at file h)
      → Served Done (load_elf F h m)
  unfolding load_elf
  load_elf-Served h m loadable within good = rw loadable (
      Served-bind (λ u m1. position m1.fw ≡ h.e_phoff) Done (seek_stage2 F h.e_phoff m) _
        (seek_stage2-Served h.e_phoff m)
        λ u m1 at.
          Served-bind (λ ps m2. ps ≡ slice file (position m1.fw) (h.e_phnum * sizeof_phdr)) Done
            (read_stage2 F (h.e_phnum * sizeof_phdr) m1) _
            (read_stage2-Served (h.e_phnum * sizeof_phdr) m1 (omega (arith, at, within)))
            λ ps m2 is.
              let same : headers_at file h ≡ phdrs_of h.e_phnum ps =
                ap (λ (k : ℕ). phdrs_of h.e_phnum (slice file k (h.e_phnum * sizeof_phdr))) (sym at)
                ∙ ap (λ (bs : List ℕ). phdrs_of h.e_phnum bs) (sym is) in
              Served-bind Done Done
                (load_segments F (phdrs_of h.e_phnum ps) 0 (phdrs_of h.e_phnum ps) m2) _
                (load_segments-Served (phdrs_of h.e_phnum ps) 0 (phdrs_of h.e_phnum ps) m2
                  (subst (λ (ps : List Phdr). AreGood size ps) same good))
                λ u m3 d. tt)

  load_prog-Served :
      (m : Machine F) → IsInOrder file size → position m.fw ≡ 0 → Served Done (load_prog F m)
  unfolding load_prog
  load_prog-Served m o start =
      Served-bind (λ bs m1. bs ≡ slice file (position m.fw) sizeof_ehdr) Done
        (read_stage2 F sizeof_ehdr m) _
        (read_stage2-Served sizeof_ehdr m (omega (arith, start, o.has_header)))
        λ bs m1 is.
          let same : slice file 0 sizeof_ehdr ≡ bs =
            ap (λ (k : ℕ). slice file k sizeof_ehdr) (sym start) ∙ sym is in
          subst (λ (bs : List ℕ). Served Done (load_elf F (ehdr_of bs) m1)) same
            (load_elf-Served (header_in file) m1 o.loadable o.has_headers o.good)

  open_stage2-Served :
      (s : F.State) → (s' : F.State) × (open_stage2 F s ≡ Answer.success tt s') × (position s' ≡ 0)
  unfolding open_stage2
  open_stage2-Served s = elim (Answer-cases (F.open_prog Name.stage2 s)) [
    | inl (u, s1, e) ↦ (s1, rw (e, open_stage2) refl, served.at_start Name.stage2 s s1 e)
    | inr (s1, e) ↦ elim (Answer-cases (F.open_prog Name.stage2_alt s1)) [
      | inl (u, s2, e2) ↦
          (s2, rw (e, e2, open_stage2) refl, served.at_start Name.stage2_alt s1 s2 e2)
      | inr (s2, e2) ↦
          let (s3, e3) = served.open_prog s2 in
          (s3, rw (e, e2, e3, open_stage2) refl, served.at_start Name.stage2_alt_alt s2 s3 e3)
    ]
  ]

  -- `load_stage2`, where the firmware opens, reads and seeks within a file whose headers are in order: the
  -- header is that of an ELF file for the 80386 with at most 16 program headers, these lie in the file, and
  -- each segment of the type PT_LOAD has a 32-bit offset, has its bytes in the file, no more of them than in
  -- memory, from an offset on that is not below the slack before it in its first page, and is shorter than
  -- 4 GiB together with this slack. Then it returns, unless an allocation of pages fails.
  pub load_stage2-Served : (m : Machine F) → IsInOrder file size → Served Done (load_stage2 F m)
  unfolding load_stage2
  load_stage2-Served m o =
      let (s1, e1) = served.handle_protocol m.fw in
      let (s2, e2) = served.open_volume s1 in
      let (s3, e3, start) = open_stage2-Served s2 in
      let (s4, e4, same) = served.file_info s3 in
      rw (e1, e2, e3, e4, load_stage2) (load_prog-Served (record m { fw = s4 }) o (same ∙ start))
