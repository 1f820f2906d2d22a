-- ===== src/Stage1/Load/Extents.antt =====
-- load_stage2 of stage1/main.c: a segment with the slack before it, and what its pages hold.
use biefircate.Prelude.{
  ℕ, ◌+◌, ◌/◌, ◌^◌, ◌%◌, ◌≤◌, ◌<◌, ◌≢◌, ◌≡◌, inl, inr, ap, ◌∙◌, Bool, true, arith, ltb, leb, ◌==◌,
  ◌!=◌, Bool-cases,
}
use biefircate.Stage1.Load.{Answer, Firmware, Extent, Machine, with_slack, pages_of}
use biefircate.Stage1.Load.Elf.{Phdr, pt_load}
use biefircate.Stage1.Load.Files.{IsLawful}
use biefircate.Stage1.Load.Segments.{IsLoaded, IsFilled}

-- The segment with its slack. An offset below the slack would be one behind any file.
pub record IsSlackened (p : Phdr) (e : Extent) : Type 0 where
  pub paddr_eq : e.paddr + p.p_paddr % 4096 ≡ p.p_paddr
  pub memsz_eq : e.memsz ≡ p.p_memsz + p.p_paddr % 4096
  pub filesz_eq :
      (p.p_filesz ≡ 0 → e.filesz ≡ 0) × (p.p_filesz ≢ 0 → e.filesz ≡ p.p_filesz + p.p_paddr % 4096)
  pub off_eq : (p.p_paddr % 4096 ≤ p.p_offset → e.off + p.p_paddr % 4096 ≡ p.p_offset)
  pub off_far : (p.p_offset < p.p_paddr % 4096 → e.off + p.p_paddr % 4096 ≡ p.p_offset + 2 ^ 32)

pub with_slack-IsSlackened :
    (p : Phdr)
    → p.p_paddr % 4096 + p.p_memsz < 2 ^ 32
    → p.p_filesz ≤ p.p_memsz
    → p.p_offset < 2 ^ 32
    → IsSlackened p (with_slack p)
unfolding with_slack
with_slack-IsSlackened p fits le word = elim (Bool-cases (p.p_paddr % 4096 != 0)) [
  | inl slack ↦ elim (Bool-cases (p.p_filesz != 0)) [
    | inl some_bytes ↦
        rw (slack, some_bytes)
          (record {
            paddr_eq = omega arith;
            memsz_eq = omega (arith, fits);
            filesz_eq = (λ z. ground (arith, z, some_bytes), λ n. omega (arith, fits, le));
            off_eq = λ h. omega (arith, word, h);
            off_far = λ h. omega (arith, word, h);
          })
    | inr none_there ↦
        rw (slack, none_there)
          (record {
            paddr_eq = omega arith;
            memsz_eq = omega (arith, fits);
            filesz_eq = (λ z. z, λ n. ground (arith, n, none_there));
            off_eq = λ h. omega (arith, word, h);
            off_far = λ h. omega (arith, word, h);
          })
  ]
  | inr whole ↦
      let z : p.p_paddr % 4096 ≡ 0 = ground (arith, whole) in
      rw whole (record {
        paddr_eq = omega (arith, z);
        memsz_eq = omega (arith, z);
        filesz_eq = (λ n. n, λ n. omega (arith, z));
        off_eq = λ h. omega (arith, z);
        off_far = λ h. absurd (omega (arith, z, h));
      })
]

module _ (F : Firmware) (file : ℕ → ℕ) (size : ℕ) (position : F.State → ℕ)
    (allocated : F.State → ℕ → Bool) (law : IsLawful F file size position allocated) where
  module _ (small : size < 2 ^ 32) where
    IsFilled-IsLoaded :
        (p : Phdr) (e : Extent) (m m' : Machine F)
        → p.p_filesz ≤ p.p_memsz
        → IsSlackened p e
        → IsFilled F file size position allocated law e m m'
        → IsLoaded file size p m'.byte
    IsFilled-IsLoaded p e m m' le sl filled =
        let slack = p.p_paddr % 4096 in
        let near : p.p_filesz ≢ 0 → slack ≤ p.p_offset = λ n.
          elim (Bool-cases (leb slack p.p_offset)) [
            | inl h ↦ ground (arith, h)
            | inr h ↦
                let far : p.p_offset < slack = ground (arith, h) in
                absurd (ground (arith, filled.in_file, sl.off_far far, sl.filesz_eq.1 n, n, small))
          ] in
        record {
          filesz_le = le;
          in_file = elim (Bool-cases (p.p_filesz == 0)) [
            | inl z ↦ inl (ground (arith, z))
            | inr nz ↦
                let n : p.p_filesz ≢ 0 = λ z. ground (arith, z, nz) in
                let len = sl.filesz_eq.1 n in
                let at = sl.off_eq (near n) in inr (ground (arith, filled.in_file, len, at, n))
          ];
          copied = λ i l.
              let n : p.p_filesz ≢ 0 = λ z. omega (arith, z, l) in
              let len = sl.filesz_eq.1 n in
              let at = sl.off_eq (near n) in
              ap m'.byte (omega (arith, sl.paddr_eq))
              ∙ filled.copied (slack + i) (omega (arith, len, l))
              ∙ ap file (omega (arith, at));
          zeroed = λ i lo hi.
              let len : e.filesz ≤ slack + i = elim (Bool-cases (p.p_filesz == 0)) [
                | inl z ↦ omega (arith, sl.filesz_eq.0 (ground (arith, z)))
                | inr nz ↦ omega (arith, sl.filesz_eq.1 (λ z. ground (arith, z, nz)), lo)
              ] in
              ap m'.byte (omega (arith, sl.paddr_eq))
              ∙ filled.zeroed (slack + i) len (omega (arith, sl.memsz_eq, hi));
        }

    -- Pages stay allocated, and what is in them stays.
    pub record IsStep (m m' : Machine F) : Type 0 where
      pub keeps : (x : ℕ) → allocated m.fw (x / 4096) ≡ true → m'.byte x ≡ m.byte x
      pub grows : (q : ℕ) → allocated m.fw q ≡ true → allocated m'.fw q ≡ true

    -- A segment is loaded, in allocated pages.
    abbrev pub IsThere : Phdr → Machine F → Type 0
    IsThere p m =
        p.p_type ≡ pt_load
        → IsLoaded file size p m.byte
          × ((i : ℕ) → i < p.p_memsz → allocated m.fw ((p.p_paddr + i) / 4096) ≡ true)

    pub allocated_lem :
        (p : Phdr) (e : Extent) (m m' : Machine F) (fw : F.State)
        → p.p_filesz ≤ p.p_memsz
        → IsSlackened p e
        → F.allocate_pages e.paddr (pages_of e.memsz) m.fw ≡ Answer.success tt fw
        → IsFilled F file size position allocated law e (record m { fw = fw }) m'
        → IsStep m m' × IsThere p m'
    allocated_lem p e m m' fw le sl call filled =
        let whole : e.paddr % 4096 ≡ 0 = omega (arith, sl.paddr_eq) in
        (
          record {
            keeps = λ x h.
                let new =
                  (law.allocate_pages e.paddr (pages_of e.memsz) m.fw fw call (x / 4096)).1 in
                filled.around x (ground (arith, new, h, whole));
            grows = λ q h.
                filled.same q
                ∙ grind
                    (arith, (law.allocate_pages e.paddr (pages_of e.memsz) m.fw fw call q).0, h);
          },
          λ load. (
            IsFilled-IsLoaded p e (record m { fw = fw }) m' le sl filled,
            λ i l.
                let q = (p.p_paddr + i) / 4096 in
                let lo : leb (e.paddr / 4096) q ≡ true = ground (arith, sl.paddr_eq) in
                let hi : ltb q (e.paddr / 4096 + pages_of e.memsz) ≡ true =
                  ground (arith, sl.paddr_eq, sl.memsz_eq, l, whole) in
                filled.same q
                ∙ grind (
                  arith,
                  (law.allocate_pages e.paddr (pages_of e.memsz) m.fw fw call q).0,
                  lo,
                  hi,
                ),
          ),
        )
