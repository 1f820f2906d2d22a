-- ===== src/Stage1/Rimg/Pcir.antt =====
-- rimg_find_pcir and rimg_find of stage1/pci.c stay inside the image, and what they accept.
use biefircate.Prelude.{
  ℕ, ◌+◌, ◌*◌, ◌/◌, ◌^◌, ◌%◌, ◌≤◌, ◌<◌, ◌≡◌, inl, inr, refl, sym, ◌||◌, Option, none, some, List,
  arith, length, ltb, ◌==◌, ◌!=◌, All, Bool-cases, ok,
}
use biefircate.Prelude.Words.{sub_w}
use biefircate.Stage1.Util.{read16, read32}
use biefircate.Stage1.Util.Cksum.{
  IsByte, byte_at, sum, read8-byte_at, byte_at-IsByte, compute_cksum_lem,
}
use biefircate.Stage1.Rimg.{
  hkibyte, pcir_min_sz, pcir_sig_pcir, check_image, check_pcir, rimg_find_pcir, rimg_find,
}

-- The 16-bit and 32-bit words at an index.
abbrev pub word_at : List ℕ → ℕ → ℕ
word_at buf p = byte_at buf p + byte_at buf (p + 1) * 2 ^ 8

abbrev pub long_at : List ℕ → ℕ → ℕ
long_at buf p = word_at buf p + word_at buf (p + 2) * 2 ^ 16

pub read16-word_at : (buf : List ℕ) (p : ℕ) → p + 1 < length buf → read16 buf p ≡ ok (word_at buf p)
unfolding read16
read16-word_at buf p l =
    rw (read8-byte_at buf p (omega arith), read8-byte_at buf (p + 1) (omega arith)) refl

pub read32-long_at : (buf : List ℕ) (p : ℕ) → p + 3 < length buf → read32 buf p ≡ ok (long_at buf p)
unfolding read32
read32-long_at buf p l =
    rw (read16-word_at buf p (omega arith), read16-word_at buf (p + 2) (omega arith)) refl

pub word_at-lt : (buf : List ℕ) (p : ℕ) → All IsByte buf → word_at buf p < 2 ^ 16
word_at-lt buf p h = omega (arith, byte_at-IsByte buf p h, byte_at-IsByte buf (p + 1) h)

-- A PCI Data Structure at index `p` of an image of at most `rom_sz` bytes: it lies inside the image,
-- which is inside the ROM, and the bytes of the image sum up to a multiple of 256.
pub record IsPcir (rimg : List ℕ) (rom_sz p : ℕ) : Type 0 where
  pub image_sz : ℕ
  pub by_size : image_sz ≡ word_at rimg (p + 16) * hkibyte
  pub in_rom : image_sz ≤ rom_sz
  pub min_size : pcir_min_sz ≤ word_at rimg (p + 10)
  pub in_image : p + word_at rimg (p + 10) ≤ image_sz
  pub balanced : sum rimg 0 image_sz % 256 ≡ 0

module _ (rimg : List ℕ) (rom_sz : ℕ) (bytes : All IsByte rimg) (l : rom_sz ≤ length rimg)
    (word : rom_sz < 2 ^ 64) (big : hkibyte ≤ rom_sz) where
  check_image_lem :
      (p pcir_sz : ℕ)
      → pcir_sz ≡ word_at rimg (p + 10)
      → p < 2 ^ 16
      → p + pcir_min_sz ≤ rom_sz
      → pcir_min_sz ≤ pcir_sz
      → (r : Option ℕ) × (check_image rimg rom_sz p pcir_sz ≡ ok r)
        × ((q : ℕ) → r ≡ some q → IsPcir rimg rom_sz q × (q ≡ p))
  unfolding check_image
  check_image_lem p pcir_sz e small room min =
      let hkib = word_at rimg (p + 16) in
      let read = read16-word_at rimg (p + 16) (omega arith) in
      let hkib_lt = word_at-lt rimg (p + 16) bytes in
      let sz_lt = word_at-lt rimg (p + 10) bytes in
      elim (Bool-cases (hkib == 0 || ltb (rom_sz / hkibyte) hkib)) [
        | inl bad ↦ (none, rw (read, bad) refl, λ q h. cc)
        | inr sized ↦
            elim (Bool-cases (
              ltb (sub_w 64 (hkib * hkibyte) pcir_min_sz) p
              || ltb (sub_w 64 (hkib * hkibyte) p) pcir_sz)) [
                | inl out ↦ (none, rw (read, sized, out) refl, λ q h. cc)
                | inr inside ↦
                    let fits : hkib * hkibyte ≤ rom_sz = ground arith in
                    let positive : 0 < hkib = ground arith in
                    let (c, found, c_lt, zero_sum) =
                      compute_cksum_lem rimg 0 (hkib * hkibyte) bytes (omega arith) in
                    elim (Bool-cases (c != 0)) [
                      | inl wrong ↦ (none, rw (read, sized, inside, found, wrong) refl, λ q h. cc)
                      | inr right ↦ (
                        some p,
                        rw (read, sized, inside, found, right) refl,
                        λ q h.
                            let same : p ≡ q = cc in
                            rw (sym same) (
                              record {
                                image_sz = hkib * hkibyte;
                                by_size = refl;
                                in_rom = fits;
                                min_size = omega arith;
                                in_image = ground arith;
                                balanced = ground arith;
                              },
                              refl,
                            ),
                      )
                    ]
              ]
      ]

  check_pcir_lem :
      (p : ℕ)
      → p < 2 ^ 16
      → p + pcir_min_sz ≤ rom_sz
      → (r : Option ℕ) × (check_pcir rimg rom_sz p ≡ ok r)
        × ((q : ℕ) → r ≡ some q → IsPcir rimg rom_sz q × (q ≡ p) × (long_at rimg p ≡ pcir_sig_pcir))
  unfolding check_pcir
  check_pcir_lem p small room =
      let read_sig = read32-long_at rimg p (omega arith) in
      let read_sz = read16-word_at rimg (p + 10) (omega arith) in
      elim (Bool-cases (long_at rimg p != pcir_sig_pcir)) [
        | inl bad ↦ (none, rw (read_sig, bad) refl, λ q h. cc)
        | inr good ↦
            elim (Bool-cases (
              ltb (word_at rimg (p + 10)) pcir_min_sz
              || ltb (sub_w 64 rom_sz p) (word_at rimg (p + 10)))) [
                | inl bad ↦ (none, rw (read_sig, good, read_sz, bad) refl, λ q h. cc)
                | inr sized ↦
                    let (r, found, says) =
                      check_image_lem p (word_at rimg (p + 10)) refl small room (ground arith) in
                    (
                      r,
                      rw (read_sig, good, read_sz, sized) found,
                      λ q h. let (is, same) = says q h in (is, same, ground arith),
                    )
              ]
      ]

-- `rimg_find_pcir` always returns and reads only the `rom_sz` bytes that it is given. A pointer
-- that it returns is the one in the image's header, which starts with the bytes 0x55 0xaa; it
-- points to a structure with the signature "PCIR" that lies inside its image, the image lies inside
-- the ROM, and the bytes of the image sum up to a multiple of 256.
pub rimg_find_pcir_lem :
    (rimg : List ℕ) (rom_sz : ℕ)
    → All IsByte rimg
    → rom_sz ≤ length rimg
    → rom_sz < 2 ^ 64
    → (r : Option ℕ) × (rimg_find_pcir rimg rom_sz ≡ ok r)
      × ((p : ℕ)
          → r ≡ some p
          → IsPcir rimg rom_sz p
            × (p ≡ word_at rimg 0x18)
            × (long_at rimg p ≡ pcir_sig_pcir)
            × (word_at rimg 0 ≡ 0xaa55))
unfolding rimg_find_pcir
rimg_find_pcir_lem rimg rom_sz bytes l word = elim (Bool-cases (ltb rom_sz hkibyte)) [
  | inl short ↦ (none, rw short refl, λ p h. cc)
  | inr big ↦
      let read_sig = read16-word_at rimg 0 (ground arith) in
      let read_off = read16-word_at rimg 0x18 (ground arith) in
      let off = word_at rimg 0x18 in
      elim (Bool-cases (word_at rimg 0 != 0xaa55)) [
        | inl bad ↦ (none, rw (big, read_sig, bad) refl, λ p h. cc)
        | inr good ↦ elim (Bool-cases (off == 0 || ltb (sub_w 64 rom_sz pcir_min_sz) off)) [
          | inl bad ↦ (none, rw (big, read_sig, good, read_off, bad) refl, λ p h. cc)
          | inr there ↦
              let (r, found, says) =
                check_pcir_lem rimg rom_sz bytes l word (ground arith) off
                  (word_at-lt rimg 0x18 bytes) (ground arith) in
              (
                r,
                rw (big, read_sig, good, read_off, there) found,
                λ p h. let (is, same, sig) = says p h in (is, same, rw same sig, ground arith),
              )
        ]
      ]
]

-- `rimg_find`, for memory that has as many bytes as the header says: it returns 0 or the size of an
-- image that starts with 0x55 0xaa, takes up at most 0x7f half-kibibytes and sums up to a multiple
-- of 256.
pub rimg_find_lem :
    (rimg : List ℕ)
    → All IsByte rimg
    → 3 ≤ length rimg
    → byte_at rimg 2 * hkibyte ≤ length rimg
    → (sz : ℕ) × (rimg_find rimg ≡ ok sz)
      × (0 < sz
          → (sz ≡ byte_at rimg 2 * hkibyte)
            × (sz ≤ 0x7f * hkibyte)
            × (word_at rimg 0 ≡ 0xaa55)
            × (sum rimg 0 sz % 256 ≡ 0))
unfolding rimg_find
rimg_find_lem rimg bytes three l =
    let read_sig = read16-word_at rimg 0 (omega arith) in
    let read_sz = read8-byte_at rimg 2 (omega arith) in
    let hkib = byte_at rimg 2 in
    elim (Bool-cases (word_at rimg 0 != 0xaa55)) [
      | inl bad ↦ (0, rw (read_sig, bad) refl, λ pos. absurd (omega arith))
      | inr good ↦ elim (Bool-cases (hkib == 0 || ltb 0x7f hkib)) [
        | inl bad ↦ (0, rw (read_sig, good, read_sz, bad) refl, λ pos. absurd (omega arith))
        | inr sized ↦
            let small : hkib ≤ 0x7f = ground arith in
            let (c, found, c_lt, zero_sum) =
              compute_cksum_lem rimg 0 (hkib * hkibyte) bytes (omega arith) in
            elim (Bool-cases (c != 0)) [
              | inl wrong ↦ (
                0,
                rw (read_sig, good, read_sz, sized, found, wrong) refl,
                λ pos. absurd (omega arith),
              )
              | inr right ↦ (
                hkib * hkibyte,
                rw (read_sig, good, read_sz, sized, found, right) refl,
                λ pos. (refl, omega arith, ground arith, ground arith),
              )
            ]
      ]
    ]
