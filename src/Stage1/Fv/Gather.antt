-- ===== src/Stage1/Fv/Gather.antt =====
-- stage1/fv.c: fv_gather_rimgs_for_one_sxn, which goes through the images of a section and caches the ones
-- for a PC.
use biefircate.Prelude.{
  ℕ, zero, suc, ◌+◌, ◌-◌, ◌*◌, ◌^◌, ◌≤◌, ◌<◌, ◌≡◌, ◌≢◌, refl, ◌∙◌, inl, inr, bit_and, Bool, true,
  ◌&&◌, Option, none, some, List, [], ◌∷◌, arith, ltb, leb, ◌==◌, ◌!=◌, if◌then◌else◌, length, drop,
  All, Bool-cases, Option-cases, Outcome, ok, stop, Stop, ◌>>=◌,
}
use biefircate.Prelude.Words.{u32, sub_w}
use biefircate.Stage1.Util.{read8}
use biefircate.Stage1.Util.Cksum.{IsByte, byte_at, read8-byte_at}
use biefircate.Stage1.Rimg.{hkibyte, pcir_rimg_sz_hkib, rimg_find_pcir}
use biefircate.Stage1.Rimg.{pcir_rev}
use biefircate.Stage1.Rimg.Pcir.{IsPcir, word_at, word_at-lt, read16-word_at, rimg_find_pcir_lem}
use biefircate.Stage1.Fv.{State, fv_cache_rimg}
use biefircate.Stage1.Fv.Cache.{fv_cache_rimg_lem}

-- The image that was found for a PC: where it starts, `found_sz`, and its structure.
pub record Found : Type 0 where
  pub rimg : List ℕ
  pub sz : ℕ
  pub pcir : ℕ
  pub rev : ℕ

-- PCIR_TYP_PCAT and PCIR_FLAGS_LAST_IMAGE, and the fields that they are about.
abbrev pub pcir_typ_pcat : ℕ
pcir_typ_pcat = 0

abbrev pub pcir_flags_last_image : ℕ
pcir_flags_last_image = 0x80

abbrev pub pcir_type : List ℕ → ℕ → Outcome ℕ
pcir_type rimg p = read8 rimg (p + 20)

abbrev pub pcir_flags : List ℕ → ℕ → Outcome ℕ
pcir_flags rimg p = read8 rimg (p + 21)

-- The first image for a PC, or the first one that has revision 3 after ones that have not.
unfoldable pub choose : ℕ → Found → Option Found → Option Found
choose type this none = if type == pcir_typ_pcat then some this else none
choose type this (some f) =
    if (type == pcir_typ_pcat) && (ltb f.rev 3 && leb 3 this.rev) then some this else some f

-- What is done after the last image of a ROM. `copy` is what AllocatePool gives for the image.
unfoldable pub cache_last :
    (ℕ → Bool) → ℕ → ℕ → Option Found → State → Outcome (Option Found × State)
cache_last pool copy flags found s =
    if bit_and flags pcir_flags_last_image != 0
    then elim found [
      | none ↦ ok (none, s)
      | some f ↦ fv_cache_rimg pool copy f.rimg f.sz f.pcir s >>= λ s'. ok (none, s')
    ]
    else ok (found, s)

-- The loop, with the bytes from `rom_left` on. `copies` has AllocatePool's results by the bytes left.
unfoldable pub gather : ℕ → (ℕ → Bool) → (ℕ → ℕ) → List ℕ → ℕ → Option Found → State → Outcome State
gather zero pool copies rom_left rom_left_sz found s = stop Stop.out_of_fuel
gather (suc rounds) pool copies rom_left rom_left_sz found s =
    rimg_find_pcir rom_left rom_left_sz >>= λ at. elim at [
      | none ↦ ok s
      | some pcir ↦ pcir_rimg_sz_hkib rom_left pcir >>= λ hkib. pcir_type rom_left pcir >>= λ type.
          pcir_rev rom_left pcir >>= λ rev. pcir_flags rom_left pcir >>= λ flags.
          cache_last pool (copies rom_left_sz) flags
            (choose type
              (record { rimg = rom_left; sz = u32 (hkib * hkibyte); pcir = pcir; rev = rev }) found)
            s
          >>= λ (found', s').
              gather rounds pool copies (drop (u32 (hkib * hkibyte)) rom_left)
                (sub_w 64 rom_left_sz (u32 (hkib * hkibyte))) found' s'
    ]

-- `fv_gather_rimgs_for_one_sxn(rom, rom_sz, ...)`. Each round takes a byte off, or more.
unfoldable pub fv_gather_rimgs_for_one_sxn :
    (ℕ → Bool) → (ℕ → ℕ) → List ℕ → ℕ → State → Outcome State
fv_gather_rimgs_for_one_sxn pool copies rom rom_sz s =
    gather (rom_sz + 1) pool copies rom rom_sz none s

-- An image that has been found lies in memory with its structure.
abbrev IsThere : Option Found → Type 0
IsThere none = Unit
IsThere (some f) = (f.sz ≤ length f.rimg) × (f.pcir + 22 ≤ f.sz)

choose-IsThere :
    (type : ℕ) (this : Found) (found : Option Found)
    → IsThere (some this)
    → IsThere found
    → IsThere (choose type this found)
unfolding choose
choose-IsThere type this none t h = elim (Bool-cases (type == pcir_typ_pcat)) [
  | inl e ↦ rw e t
  | inr e ↦ rw e tt
]
choose-IsThere type this (some f) t h =
    elim (Bool-cases ((type == pcir_typ_pcat) && (ltb f.rev 3 && leb 3 this.rev))) [
      | inl e ↦ rw e t
      | inr e ↦ rw e h
    ]

module _ (pool : ℕ → Bool) (copies : ℕ → ℕ) (mem : (k : ℕ) → pool k ≡ true)
    (some_copy : (k : ℕ) → copies k ≢ 0) where
  cache_last_lem :
      (k flags : ℕ) (found : Option Found) (s : State)
      → IsThere found
      → (found' : Option Found) × (s' : State) × (cache_last pool (copies k) flags found s
          ≡ ok (found', s'))
        × IsThere found'
  unfolding cache_last
  cache_last_lem k flags found s h = elim (Bool-cases (bit_and flags pcir_flags_last_image != 0)) [
    | inr more ↦ (found, s, rw more refl, h)
    | inl last ↦ elim (Option-cases found) [
      | inl e ↦ (none, s, rw (last, e) refl, tt)
      | inr (f, e) ↦
          let (inside, room) : IsThere (some f) = rw e at h in
          let (s', d, n, cached, ids, keys, bytes) =
            fv_cache_rimg_lem pool (copies k) f.rimg f.sz f.pcir s mem (some_copy k) inside room in
          (none, s', rw (last, e, cached) refl, tt)
    ]
  ]

  length-drop : (n : ℕ) (bs : List ℕ) → length (drop n bs) ≡ length bs - n
  length-drop zero bs = omega arith
  length-drop (suc n) [] = omega arith
  length-drop (suc n) (b ∷ bs) = length-drop n bs ∙ omega arith

  drop-All : (n : ℕ) (bs : List ℕ) → All IsByte bs → All IsByte (drop n bs)
  drop-All zero bs h = h
  drop-All (suc n) [] h = tt
  drop-All (suc n) (b ∷ bs) h = drop-All n bs h.1

  gather_lem :
      (rounds : ℕ) (rom : List ℕ) (left : ℕ) (found : Option Found) (s : State)
      → All IsByte rom
      → left ≤ length rom
      → left < 2 ^ 64
      → left < rounds
      → IsThere found
      → (s' : State) × (gather rounds pool copies rom left found s ≡ ok s')
  unfolding gather
  gather_lem zero rom left found s bytes l word fuel h = absurd (omega (arith, fuel))
  gather_lem (suc rounds) rom left found s bytes l word fuel h =
      let (r, find, says) = rimg_find_pcir_lem rom left bytes l word in
      elim (Option-cases r) [
        | inl e ↦ (s, rw (find, e) refl)
        | inr (p, e) ↦
            let is : IsPcir rom left p = (says p e).0 in
            let hkib_lt = word_at-lt rom (p + 16) bytes in
            let this_sz : u32 (word_at rom (p + 16) * hkibyte) ≡ is.image_sz =
              omega (arith, hkib_lt, is.by_size) in
            let read_sz =
              read16-word_at rom (p + 16) (omega (arith, is.in_image, is.min_size, is.in_rom, l)) in
            let read_type =
              read8-byte_at rom (p + 20) (omega (arith, is.in_image, is.min_size, is.in_rom, l)) in
            let read_rev =
              read8-byte_at rom (p + 12) (omega (arith, is.in_image, is.min_size, is.in_rom, l)) in
            let read_flags =
              read8-byte_at rom (p + 21) (omega (arith, is.in_image, is.min_size, is.in_rom, l)) in
            let this : Found = record {
              rimg = rom;
              sz = u32 (word_at rom (p + 16) * hkibyte);
              pcir = p;
              rev = byte_at rom (p + 12);
            } in
            let chosen =
              choose-IsThere (byte_at rom (p + 20)) this found
                (
                  omega (arith, this_sz, is.in_rom, l),
                  omega (arith, this_sz, is.in_image, is.min_size),
                )
                h in
            let (found', s1, last, there) =
              cache_last_lem left (byte_at rom (p + 21)) (choose (byte_at rom (p + 20)) this found)
                s chosen in
            let (s', rest) =
              gather_lem rounds (drop (u32 (word_at rom (p + 16) * hkibyte)) rom)
                (sub_w 64 left (u32 (word_at rom (p + 16) * hkibyte))) found' s1
                (drop-All (u32 (word_at rom (p + 16) * hkibyte)) rom bytes)
                (omega (
                  arith,
                  length-drop (u32 (word_at rom (p + 16) * hkibyte)) rom,
                  this_sz,
                  is.in_rom,
                  l,
                  word,
                ))
                (omega arith)
                (omega (arith, this_sz, is.in_rom, is.in_image, is.min_size, word, fuel)) there in
            (s', rw (find, e, read_sz, read_type, read_rev, read_flags, last) rest)
      ]

  -- `fv_gather_rimgs_for_one_sxn`, for a section of any bytes, when AllocatePool gives memory: its loop
  -- ends, with no read behind the section, and it returns.
  pub fv_gather_rimgs_for_one_sxn_lem :
      (rom : List ℕ) (rom_sz : ℕ) (s : State)
      → All IsByte rom
      → rom_sz ≤ length rom
      → rom_sz < 2 ^ 64
      → (s' : State) × (fv_gather_rimgs_for_one_sxn pool copies rom rom_sz s ≡ ok s')
  unfolding fv_gather_rimgs_for_one_sxn
  fv_gather_rimgs_for_one_sxn_lem rom rom_sz s bytes l word =
      gather_lem (rom_sz + 1) rom rom_sz none s bytes l word (omega arith) tt
