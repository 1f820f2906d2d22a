-- ===== src/Stage1/Load/Tests/Disk.antt =====
-- A firmware that keeps one file, and why it is lawful.
use biefircate.Prelude.{
  ℕ, ◌+◌, ◌-◌, ◌/◌, ◌%◌, ◌≤◌, ◌<◌, ◌≡◌, ◌⊎◌, inl, inr, ap, sym, ◌∙◌, subst, Bool, true, false, not,
  ◌&&◌, ◌||◌, List, [], ◌∷◌, arith, ltb, leb, if◌then◌else◌, length, get_or, Bool-cases,
}
use biefircate.Prelude.Tables.{holds_below, holds_below-at}
use biefircate.Stage1.Load.{Answer, File, Firmware, Name, Machine}
use biefircate.Stage1.Load.Files.{slice, length-slice, IsLawful}

-- The file: an ELF header, one program header, and a segment of four bytes, with four zeros after it.
abbrev pub header : List ℕ
header =
    0x7f ∷ 0x45 ∷ 0x4c ∷ 0x46 ∷ 1 ∷ 1 ∷ 1 ∷ 0 ∷ 0 ∷ 0 ∷ 0 ∷ 0 ∷ 0 ∷ 0 ∷ 0 ∷ 0 ∷ 2 ∷ 0 ∷ 3 ∷ 0 ∷ 1
    ∷ 0 ∷ 0 ∷ 0 ∷ 0x54 ∷ 0 ∷ 0x10 ∷ 0 ∷ 52 ∷ 0 ∷ 0 ∷ 0 ∷ 0 ∷ 0 ∷ 0 ∷ 0 ∷ 0 ∷ 0 ∷ 0 ∷ 0 ∷ 52 ∷ 0 ∷ 32
    ∷ 0 ∷ 1 ∷ 0 ∷ 0 ∷ 0 ∷ 0 ∷ 0 ∷ 0 ∷ 0 ∷ 1 ∷ 0 ∷ 0 ∷ 0 ∷ 84 ∷ 0 ∷ 0 ∷ 0 ∷ 0x54 ∷ 0 ∷ 0x10 ∷ 0
    ∷ 0x54 ∷ 0 ∷ 0x10 ∷ 0 ∷ 4 ∷ 0 ∷ 0 ∷ 0 ∷ 8 ∷ 0 ∷ 0 ∷ 0 ∷ 7 ∷ 0 ∷ 0 ∷ 0 ∷ 0 ∷ 0x10 ∷ 0 ∷ 0 ∷ 11
    ∷ 12 ∷ 13 ∷ 14 ∷ []

abbrev pub size : ℕ
size = 88

unfoldable pub file : ℕ → ℕ
file x = get_or header x 0 % 256

pub record Disk : Type 0 where
  pub place : ℕ
  pub is_open : File → Bool
  pub taken : ℕ → Bool

abbrev pub eq_file : File → File → Bool
eq_file File.vol File.vol = true
eq_file File.prog File.prog = true
eq_file File.vol File.prog = false
eq_file File.prog File.vol = false

abbrev pub opened : File → Disk → Disk
opened f d = record d { is_open = λ g. eq_file f g || d.is_open g }

abbrev pub pages_at : ℕ → ℕ → ℕ → Bool
pages_at paddr pages q = leb (paddr / 4096) q && ltb q (paddr / 4096 + pages)

unfoldable pub readable : ℕ → Disk → ℕ
readable n d = if leb (d.place + n) size then n else size - d.place

unfoldable pub allocated_pages : ℕ → ℕ → Disk → Answer Disk (Unit {0})
allocated_pages paddr pages d =
    if holds_below pages (λ i. not (d.taken (paddr / 4096 + i)))
    then Answer.success tt (record d { taken = λ q. d.taken q || pages_at paddr pages q })
    else Answer.failure d

-- The program is there under the second name.
unfoldable pub open_name : Name → Disk → Answer Disk (Unit {0})
open_name Name.stage2 d = Answer.failure d
open_name Name.stage2_alt d = Answer.success tt (record (opened File.prog d) { place = 0 })
open_name Name.stage2_alt_alt d = Answer.success tt (record (opened File.prog d) { place = 0 })

abbrev pub disk : Firmware
disk = record {
  State = Disk;
  handle_protocol = λ d. Answer.success tt d;
  open_volume = λ d. Answer.success tt (opened File.vol d);
  open_prog = open_name;
  file_info = λ d. Answer.success tt d;
  read = λ n d.
      Answer.success (slice file d.place (readable n d))
        (record d { place = d.place + readable n d });
  set_position = λ pos d. Answer.success tt (record d { place = pos });
  close = λ f d. record d { is_open = λ g. if eq_file f g then false else d.is_open g };
  allocate_pages = allocated_pages;
  free_pages = λ paddr pages d. record d { taken = λ q. d.taken q && not (pages_at paddr pages q) };
}

abbrev pub place_of : Disk → ℕ
place_of d = d.place

abbrev pub taken_in : Disk → ℕ → Bool
taken_in d q = d.taken q

abbrev pub boot : Machine disk
boot = record {
  fw = record { place = 0; is_open = λ f. false; taken = λ q. ltb q 256 };
  byte = λ x. 0xcc;
}

allocated_pages-law :
    (paddr pages : ℕ) (d d' : Disk)
    → allocated_pages paddr pages d ≡ Answer.success tt d'
    → (q : ℕ)
    → (d'.taken q ≡ (d.taken q || pages_at paddr pages q))
      × ((d.taken q && pages_at paddr pages q) ≡ false)
unfolding allocated_pages
allocated_pages-law paddr pages d d' h q =
    elim (Bool-cases (holds_below pages (λ i. not (d.taken (paddr / 4096 + i))))) [
      | inr bad ↦ absurd (let no_way = rw bad at h in cc)
      | inl free ↦
          let is : Answer.success tt (record d { taken = λ q. d.taken q || pages_at paddr pages q })
              ≡ Answer.success tt d' =
            rw free at h in
          (
            ap
                (λ (t : Answer Disk (Unit {0})). elim t [
                  | Answer.success u d ↦ d.taken q
                  | Answer.failure d ↦ d.taken q
                ])
                (sym is),
            elim (Bool-cases (pages_at paddr pages q)) [
              | inr out ↦ grind (arith, out)
              | inl here ↦
                  let at : paddr / 4096 + (q - paddr / 4096) ≡ q = ground (arith, here) in
                  let there =
                    holds_below-at (λ i. not (d.taken (paddr / 4096 + i))) pages (q - paddr / 4096)
                      (ground (arith, here)) free in
                  let free_q : not (d.taken q) ≡ true =
                    subst (λ (k : ℕ). not (d.taken k) ≡ true) at there in
                  grind (arith, free_q)
            ],
          )
    ]

success-place :
    (u : Unit {0}) (d d' : Disk) → Answer.success u d ≡ Answer.success tt d' → d'.place ≡ d.place
success-place u d d' h =
    ap
      (λ (t : Answer Disk (Unit {0})). elim t [
        | Answer.success u d ↦ d.place
        | Answer.failure d ↦ d.place
      ])
      (sym h)

pub open_name-place :
    (name : Name) (d d' : Disk) → open_name name d ≡ Answer.success tt d' → d'.place ≡ 0
unfolding open_name
open_name-place Name.stage2 d d' h = absurd (let no_way = h in cc)
open_name-place Name.stage2_alt d d' h =
    success-place tt (record (opened File.prog d) { place = 0 }) d' h
open_name-place Name.stage2_alt_alt d d' h =
    success-place tt (record (opened File.prog d) { place = 0 }) d' h

read-law :
    (n : ℕ) (d d' : Disk) (bs : List ℕ)
    → disk.read n d ≡ Answer.success bs d'
    → (bs ≡ slice file d.place (length bs))
      × ((length bs ≡ 0) ⊎ (d.place + length bs ≤ size))
      × ((q : ℕ) → d'.taken q ≡ d.taken q)
unfolding readable
read-law n d d' bs h =
    let is : slice file d.place (readable n d) ≡ bs =
      ap (λ (t : Answer Disk (List ℕ)). elim t [ Answer.success bs d ↦ bs | Answer.failure d ↦ [] ])
        h in
    let same : d.taken ≡ d'.taken =
      ap
        (λ (t : Answer Disk (List ℕ)). elim t [
          | Answer.success bs d ↦ d.taken
          | Answer.failure d ↦ d.taken
        ])
        h in
    let len : length bs ≡ readable n d =
      ap (λ (t : List ℕ). length t) (sym is) ∙ length-slice file d.place (readable n d) in
    (
      subst (λ (k : ℕ). bs ≡ slice file d.place k) (sym len) (sym is),
      ground (arith, len),
      λ q. ap (λ (f : ℕ → Bool). f q) (sym same),
    )

file-byte : (x : ℕ) → file x < 256
unfolding file
file-byte x = omega arith

pub disk-IsLawful : IsLawful disk file size place_of taken_in
disk-IsLawful = record {
  bytes = file-byte;
  open_prog = open_name-place;
  file_info = λ d d' h. success-place tt d d' h;
  read = read-law;
  set_position = λ pos d d' h. (
    success-place tt (record d { place = pos }) d' h,
    λ q.
        ap
          (λ (t : Answer Disk (Unit {0})). elim t [
            | Answer.success u d ↦ d.taken q
            | Answer.failure d ↦ d.taken q
          ])
          (sym h),
  );
  allocate_pages = allocated_pages-law;
}
