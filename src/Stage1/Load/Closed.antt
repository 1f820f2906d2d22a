-- ===== src/Stage1/Load/Closed.antt =====
-- load_stage2 of stage1/main.c closes the files that it has opened, with two exceptions.
use biefircate.Prelude.{
  ℕ, ◌+◌, ◌*◌, ◌≡◌, inl, inr, Bool, false, ◌!=◌, ◌==◌, ltb, List, [], ◌∷◌, length, Bool-cases,
}
use biefircate.Stage1.Load.{
  File, Firmware, Extent, Reason, Machine, Ending, bind, close_both, with_slack, pages_of,
  read_stage2, seek_stage2, fill_segment, free_stage2_mem, load_segment, load_segments, is_loadable,
  load_elf, load_prog, open_stage2, load_stage2,
}
use biefircate.Stage1.Load.Elf.{Ehdr, Phdr, pt_load, phdrs_of, ehdr_of, sizeof_ehdr, sizeof_phdr}
use biefircate.Stage1.Load.Segments.{Answer-cases}

-- `Close` of the UEFI file protocol.
pub record IsClosing (F : Firmware) (is_open : File → F.State → Bool) : Type 0 where
  pub closed : (f : File) (s : F.State) → is_open f (F.close f s) ≡ false
  pub others : (f g : File) (s : F.State) → is_open g s ≡ false → is_open g (F.close f s) ≡ false

module _ (F : Firmware) (is_open : File → F.State → Bool) (closing : IsClosing F is_open) where
  abbrev pub AreClosed : Machine F → Type 0
  AreClosed m = (is_open File.vol m.fw ≡ false) × (is_open File.prog m.fw ≡ false)

  -- What each message promises.
  abbrev pub IsTidy : Reason → Machine F → Type 0
  IsTidy Reason.no_file_system m = Unit
  IsTidy Reason.no_volume m = Unit
  IsTidy Reason.no_stage2 m = is_open File.vol m.fw ≡ false
  IsTidy Reason.no_info m = Unit
  IsTidy Reason.cannot_read m = AreClosed m
  IsTidy Reason.short_read m = AreClosed m
  IsTidy Reason.cannot_seek m = AreClosed m
  IsTidy Reason.no_memory m = Unit
  IsTidy Reason.bad_stage2 m = AreClosed m

  abbrev pub Tidies {ℓ} : {A : Type ℓ} → (A → Machine F → Type 0) → Ending F A → Type 0
  Tidies P (Ending.returned a m) = P a m
  Tidies P (Ending.gave_up why m) = IsTidy why m

  abbrev Any {ℓ} : {A : Type ℓ} → A → Machine F → Type 0
  Any a m = Unit

  Tidies-bind {ℓ κ} :
      {A : Type ℓ} {B : Type κ} (Q : B → Machine F → Type 0) (step : Ending F A)
      (k : A → Machine F → Ending F B)
      → Tidies Any step
      → ((a : A) (m : Machine F) → Tidies Q (k a m))
      → Tidies Q (bind F step k)
  Tidies-bind Q (Ending.returned a m) k h f = f a m
  Tidies-bind Q (Ending.gave_up why m) k h f = h

  close_both-AreClosed : (m : Machine F) → AreClosed (close_both F m)
  close_both-AreClosed m = (
    closing.closed File.vol (F.close File.prog m.fw),
    closing.others File.vol File.prog (F.close File.prog m.fw) (closing.closed File.prog m.fw),
  )

  read_stage2-Tidies : (n : ℕ) (m : Machine F) → Tidies Any (read_stage2 F n m)
  unfolding read_stage2
  read_stage2-Tidies n m = elim (Bool-cases (n == 0)) [
    | inl z ↦ rw z tt
    | inr some_bytes ↦ elim (Answer-cases (F.read n m.fw)) [
      | inr (s, e) ↦ rw (some_bytes, e) (close_both-AreClosed (record m { fw = s }))
      | inl (bs, s, e) ↦ elim (Bool-cases (length bs != n)) [
        | inl short ↦ rw (some_bytes, e, short) (close_both-AreClosed (record m { fw = s }))
        | inr full ↦ rw (some_bytes, e, full) tt
      ]
    ]
  ]

  seek_stage2-Tidies : (pos : ℕ) (m : Machine F) → Tidies Any (seek_stage2 F pos m)
  unfolding seek_stage2
  seek_stage2-Tidies pos m = elim (Answer-cases (F.set_position pos m.fw)) [
    | inr (s, e) ↦ rw (e, seek_stage2) (close_both-AreClosed (record m { fw = s }))
    | inl (u, s, e) ↦ rw (e, seek_stage2) tt
  ]

  fill_segment-Tidies : (e : Extent) (m : Machine F) → Tidies Any (fill_segment F e m)
  unfolding fill_segment
  fill_segment-Tidies e m = elim (Bool-cases (e.filesz == 0)) [
    | inl z ↦ rw z tt
    | inr some_bytes ↦ rw some_bytes (
        Tidies-bind Any (bind F (seek_stage2 F e.off m) (λ _. read_stage2 F e.filesz)) _
          (Tidies-bind Any (seek_stage2 F e.off m) _ (seek_stage2-Tidies e.off m)
            λ u m1. read_stage2-Tidies e.filesz m1)
          λ bs m2. tt)
  ]

  load_segment-Tidies :
      (phdrs : List Phdr) (ph_idx : ℕ) (p : Phdr) (m : Machine F)
      → Tidies Any (load_segment F phdrs ph_idx p m)
  unfolding load_segment
  load_segment-Tidies phdrs ph_idx p m = elim (Bool-cases (p.p_type != pt_load)) [
    | inl other ↦ rw other tt
    | inr load ↦ elim (Bool-cases (ltb p.p_memsz p.p_filesz)) [
      | inl bad ↦ rw (load, bad) (close_both-AreClosed (free_stage2_mem F phdrs ph_idx m))
      | inr le ↦
          let e = with_slack p in
          elim (Answer-cases (F.allocate_pages e.paddr (pages_of e.memsz) m.fw)) [
            | inr (fw, call) ↦ rw (load, le, call) tt
            | inl (u, fw, call) ↦ rw (load, le, call) (fill_segment-Tidies e (record m { fw = fw }))
          ]
    ]
  ]

  load_segments-Tidies :
      (phdrs : List Phdr) (ph_idx : ℕ) (rest : List Phdr) (m : Machine F)
      → Tidies Any (load_segments F phdrs ph_idx rest m)
  unfolding load_segments
  load_segments-Tidies phdrs ph_idx [] m = tt
  load_segments-Tidies phdrs ph_idx (p ∷ rest) m =
      Tidies-bind Any (load_segment F phdrs ph_idx p m) _ (load_segment-Tidies phdrs ph_idx p m)
        λ u m1. load_segments-Tidies phdrs (ph_idx + 1) rest m1

  abbrev Closes : ℕ → Machine F → Type 0
  Closes entry m = AreClosed m

  load_elf-Tidies : (h : Ehdr) (m : Machine F) → Tidies Closes (load_elf F h m)
  unfolding load_elf
  load_elf-Tidies h m = elim (Bool-cases (is_loadable h)) [
    | inr bad ↦ rw bad (close_both-AreClosed m)
    | inl good ↦ rw good (
        Tidies-bind Closes (seek_stage2 F h.e_phoff m) _ (seek_stage2-Tidies h.e_phoff m) λ u m1.
          Tidies-bind Closes (read_stage2 F (h.e_phnum * sizeof_phdr) m1) _
            (read_stage2-Tidies (h.e_phnum * sizeof_phdr) m1)
            λ ps m2.
              Tidies-bind Closes
                (load_segments F (phdrs_of h.e_phnum ps) 0 (phdrs_of h.e_phnum ps) m2) _
                (load_segments-Tidies (phdrs_of h.e_phnum ps) 0 (phdrs_of h.e_phnum ps) m2)
                λ u m3. close_both-AreClosed m3)
  ]

  load_prog-Tidies : (m : Machine F) → Tidies Closes (load_prog F m)
  unfolding load_prog
  load_prog-Tidies m =
      Tidies-bind Closes (read_stage2 F sizeof_ehdr m) _ (read_stage2-Tidies sizeof_ehdr m)
        λ bs m1. load_elf-Tidies (ehdr_of bs) m1

  -- `load_stage2`: when it returns, the program and the volume are closed; so they are when it gives up
  -- since it cannot read or seek, since a read is short, or since the file is no good, at a segment too;
  -- and the volume is when no program could be opened.
  pub load_stage2-Tidies : (m : Machine F) → Tidies Closes (load_stage2 F m)
  unfolding load_stage2
  load_stage2-Tidies m = elim (Answer-cases (F.handle_protocol m.fw)) [
    | inr (s, e) ↦ rw (e, load_stage2) tt
    | inl (u, s1, e) ↦ elim (Answer-cases (F.open_volume s1)) [
      | inr (s, e1) ↦ rw (e, e1, load_stage2) tt
      | inl (u, s2, e1) ↦ elim (Answer-cases (open_stage2 F s2)) [
        | inr (s, e2) ↦ rw (e, e1, e2, load_stage2) (closing.closed File.vol s)
        | inl (u, s3, e2) ↦ elim (Answer-cases (F.file_info s3)) [
          | inr (s, e3) ↦ rw (e, e1, e2, e3, load_stage2) tt
          | inl (u, s4, e3) ↦
              rw (e, e1, e2, e3, load_stage2) (load_prog-Tidies (record m { fw = s4 }))
        ]
      ]
    ]
  ]
