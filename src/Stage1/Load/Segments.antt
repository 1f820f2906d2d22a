-- ===== src/Stage1/Load/Segments.antt =====
-- The loop of load_stage2 of stage1/main.c: what it leaves in memory for each segment.
use biefircate.Prelude.{
  ℕ, ◌+◌, ◌-◌, ◌^◌, ◌%◌, ◌≤◌, ◌<◌, ◌≡◌, ◌⊎◌, inl, inr, refl, ap, sym, ◌∙◌, subst, Bool, List, [],
  ◌∷◌, arith, ◌==◌, ◌!=◌, if◌then◌else◌, length, get_or, Bool-cases,
}
use biefircate.Prelude.Words.{sub_w}
use biefircate.Stage1.Load.{
  Answer, Firmware, Bytes, Extent, Machine, Ending, bind, put_bytes, clear, read_stage2,
  seek_stage2, fill_segment,
}
use biefircate.Stage1.Load.Elf.{Phdr, pt_load}
use biefircate.Stage1.Load.Files.{slice, length-slice, get_or-slice, IsLawful}

-- What a call that returns leaves.
abbrev pub Returns {ℓ} :
    {F : Firmware} {A : Type ℓ} → (A → Machine F → Type 0) → Ending F A → Type 0
Returns P (Ending.returned a m) = P a m
Returns P (Ending.gave_up why m) = Unit

pub Returns-bind {ℓ κ} :
    {F : Firmware} {A : Type ℓ} {B : Type κ} (P : A → Machine F → Type 0)
    (Q : B → Machine F → Type 0) (step : Ending F A) (k : A → Machine F → Ending F B)
    → Returns P step
    → ((a : A) (m : Machine F) → P a m → Returns Q (k a m))
    → Returns Q (bind F step k)
Returns-bind P Q (Ending.returned a m) k h f = f a m h
Returns-bind P Q (Ending.gave_up why m) k h f = tt

pub Returns-imp {ℓ} :
    {F : Firmware} {A : Type ℓ} (P Q : A → Machine F → Type 0) (step : Ending F A)
    → ((a : A) (m : Machine F) → P a m → Q a m)
    → Returns P step
    → Returns Q step
Returns-imp P Q (Ending.returned a m) f h = f a m h
Returns-imp P Q (Ending.gave_up why m) f h = tt

pub Answer-cases {ℓ κ} :
    {S : Type ℓ} {A : Type κ} (t : Answer S A)
    → ((a : A) × (s : S) × (t ≡ Answer.success a s)) ⊎ ((s : S) × (t ≡ Answer.failure s))
Answer-cases (Answer.success a s) = inl (a, s, refl)
Answer-cases (Answer.failure s) = inr (s, refl)

-- A segment that fits a 32-bit address space with the slack in front of it.
abbrev pub IsRoomy : Phdr → Type 0
IsRoomy p = p.p_type ≡ pt_load → p.p_paddr % 4096 + p.p_memsz < 2 ^ 32

abbrev pub AreRoomy : List Phdr → Type 0
AreRoomy [] = Unit
AreRoomy (p ∷ ps) = IsRoomy p × AreRoomy ps

-- A segment in memory: the bytes of the file, then zeros.
pub record IsLoaded (file : ℕ → ℕ) (size : ℕ) (p : Phdr) (byte : Bytes) : Type 0 where
  pub filesz_le : p.p_filesz ≤ p.p_memsz
  pub in_file : (p.p_filesz ≡ 0) ⊎ (p.p_offset + p.p_filesz ≤ size)
  pub copied : (i : ℕ) → i < p.p_filesz → byte (p.p_paddr + i) ≡ file (p.p_offset + i)
  pub zeroed : (i : ℕ) → p.p_filesz ≤ i → i < p.p_memsz → byte (p.p_paddr + i) ≡ 0

module _ (F : Firmware) (file : ℕ → ℕ) (size : ℕ) (position : F.State → ℕ)
    (allocated : F.State → ℕ → Bool) (law : IsLawful F file size position allocated) where
  abbrev pub IsSame : Machine F → Machine F → Type 0
  IsSame m m' = (q : ℕ) → allocated m'.fw q ≡ allocated m.fw q

  pub read_stage2_lem :
      (n : ℕ) (m : Machine F)
      → Returns
          (λ bs m'.
            (bs ≡ slice file (position m.fw) n)
            × ((n ≡ 0) ⊎ (position m.fw + n ≤ size))
            × (m'.byte ≡ m.byte)
            × IsSame m m')
          (read_stage2 F n m)
  unfolding read_stage2 slice
  read_stage2_lem n m = elim (Bool-cases (n == 0)) [
    | inl z ↦
        let n0 : n ≡ 0 = ground (arith, z) in
        rw z (subst (λ l. [] ≡ slice file (position m.fw) l) (sym n0) refl, inl n0, refl, λ q. refl)
    | inr some_bytes ↦ elim (Answer-cases (F.read n m.fw)) [
      | inr (s, e) ↦ rw (some_bytes, e) tt
      | inl (bs, s, e) ↦ elim (Bool-cases (length bs != n)) [
        | inl short ↦ rw (some_bytes, e, short) tt
        | inr full ↦
            let (is, within, same) = law.read n m.fw s bs e in
            let len : length bs ≡ n = ground (arith, full) in
            rw (some_bytes, e, full)
              (
                subst (λ l. bs ≡ slice file (position m.fw) l) len is,
                ground (arith, within, len),
                refl,
                same,
              )
      ]
    ]
  ]

  pub seek_stage2_lem :
      (pos : ℕ) (m : Machine F)
      → Returns
          (λ u m'. (position m'.fw ≡ pos) × (m'.byte ≡ m.byte) × IsSame m m')
          (seek_stage2 F pos m)
  unfolding seek_stage2
  seek_stage2_lem pos m = elim (Answer-cases (F.set_position pos m.fw)) [
    | inr (s, e) ↦ rw (e, seek_stage2) tt
    | inl (u, s, e) ↦
        let laws = law.set_position pos m.fw s e in rw (e, seek_stage2) (laws.0, refl, laws.1)
  ]

  -- What is in memory after the bytes `bs` and the zeros are put at `e`.
  filled_lem :
      (e : Extent) (byte : Bytes)
      → e.filesz ≤ e.memsz
      → e.memsz < 2 ^ 32
      → (bs : List ℕ) → bs ≡ slice file e.off e.filesz
      → (x : ℕ)
      → (let byte' =
            clear (e.paddr + e.filesz) (sub_w 32 e.memsz e.filesz) (put_bytes e.paddr bs byte) in
          (x < e.paddr → byte' x ≡ byte x)
          × (e.paddr + e.memsz ≤ x → byte' x ≡ byte x)
          × ((i : ℕ) → x ≡ e.paddr + i → i < e.filesz → byte' x ≡ file (e.off + i))
          × (e.paddr + e.filesz ≤ x → x < e.paddr + e.memsz → byte' x ≡ 0))
  unfolding clear put_bytes
  filled_lem e byte le word bs is x =
      let zeros : sub_w 32 e.memsz e.filesz ≡ e.memsz - e.filesz = omega (arith, le, word) in
      let len : length bs ≡ e.filesz =
        ap (λ (t : List ℕ). length t) is ∙ length-slice file e.off e.filesz in
      rw (zeros, len)
        (
          λ below. ground (arith, below, le),
          λ above. ground (arith, above, le),
          λ i at l.
              let there : get_or bs (x - e.paddr) 0 ≡ file (e.off + i) =
                ap (λ (t : List ℕ). get_or t (x - e.paddr) 0) is
                ∙ ap (λ (k : ℕ). get_or (slice file e.off e.filesz) k 0) (omega (arith, at))
                ∙ get_or-slice file e.off e.filesz i l in
              ground (arith, at, l, there),
          λ lo hi. ground (arith, lo, hi),
        )

  pub record IsFilled (e : Extent) (m m' : Machine F) : Type 0 where
    pub around : (x : ℕ) → (x < e.paddr) ⊎ (e.paddr + e.memsz ≤ x) → m'.byte x ≡ m.byte x
    pub in_file : (e.filesz ≡ 0) ⊎ (e.off + e.filesz ≤ size)
    pub copied : (i : ℕ) → i < e.filesz → m'.byte (e.paddr + i) ≡ file (e.off + i)
    pub zeroed : (i : ℕ) → e.filesz ≤ i → i < e.memsz → m'.byte (e.paddr + i) ≡ 0
    pub same : IsSame m m'

  pub fill_segment_lem :
      (e : Extent) (m : Machine F)
      → e.filesz ≤ e.memsz
      → e.memsz < 2 ^ 32
      → Returns (λ u m'. IsFilled e m m') (fill_segment F e m)
  unfolding fill_segment slice
  fill_segment_lem e m le word =
      let WasRead = λ (bs : List ℕ) (m' : Machine F).
        (bs ≡ slice file e.off e.filesz)
        × ((e.filesz ≡ 0) ⊎ (e.off + e.filesz ≤ size))
        × (m'.byte ≡ m.byte)
        × IsSame m m' in
      let steps = λ (b : Bool).
        if b
        then Ending.returned [] m
        else bind F (seek_stage2 F e.off m) (λ _. read_stage2 F e.filesz) in
      Returns-bind WasRead (λ u m'. IsFilled e m m') (steps (e.filesz == 0)) _
        (elim (Bool-cases (e.filesz == 0)) [
          | inl z ↦
              let n0 : e.filesz ≡ 0 = ground (arith, z) in
              rw z (subst (λ l. [] ≡ slice file e.off l) (sym n0) refl, inl n0, refl, λ q. refl)
          | inr some_bytes ↦ rw some_bytes (
              Returns-bind (λ u m1. (position m1.fw ≡ e.off) × (m1.byte ≡ m.byte) × IsSame m m1)
                WasRead (seek_stage2 F e.off m) _ (seek_stage2_lem e.off m)
                λ u m1 (at, byte1, same1).
                  subst
                    (λ (o : ℕ).
                      Returns
                        (λ (bs : List ℕ) (m' : Machine F).
                          (bs ≡ slice file o e.filesz)
                          × ((e.filesz ≡ 0) ⊎ (o + e.filesz ≤ size))
                          × (m'.byte ≡ m.byte)
                          × IsSame m m')
                        (read_stage2 F e.filesz m1))
                    at
                    (Returns-imp _ _ (read_stage2 F e.filesz m1)
                      (λ bs m2 (is, within, byte2, same2).
                        (is, within, byte2 ∙ byte1, λ q. same2 q ∙ same1 q))
                      (read_stage2_lem e.filesz m1)))
        ])
        λ bs m1 (is, within, byte1, same1).
          let put = filled_lem e m1.byte le word bs is in
          record {
            around = λ x out. elim out [
              | inl below ↦ (put x).0 below ∙ ap (λ (f : Bytes). f x) byte1
              | inr above ↦ (put x).1 above ∙ ap (λ (f : Bytes). f x) byte1
            ];
            in_file = within;
            copied = λ i l. (put (e.paddr + i)).2 i refl l;
            zeroed = λ i lo hi. (put (e.paddr + i)).3 (omega (arith, lo)) (omega (arith, hi));
            same = same1;
          }
