-- ===== src/Stage1/Rimg/Tests.antt =====
-- Runs of the ROM image code at a concrete image, and its theorems at such inputs.
use biefircate.Prelude.{
  ℕ, ◌+◌, ◌*◌, ◌%◌, ◌≤◌, ◌<◌, ◌≡◌, ◌≢◌, refl, Option, some, List, [], ◌∷◌, ◌++◌, arith, ok, All,
  All-append, replicate, zero, suc,
}
use biefircate.Stage1.Util.{
  Order, read8, read16, read32, memcmp, subtract_bytes, compute_cksum, update_cksum,
}
use biefircate.Stage1.Util.Cksum.{IsByte, byte_at, sum, update_cksum_lem}
use biefircate.Stage1.Util.Compare.{Tells, memcmp_lem}
use biefircate.Stage1.Rimg.{
  pcir_sig_pcir, hkibyte, check_image, check_pcir, rimg_find_pcir, rimg_find, list_ends,
  rimg_pcir_find_dev_id_list,
}
use biefircate.Stage1.Rimg.Pcir.{IsPcir, word_at, long_at, rimg_find_pcir_lem, rimg_find_lem}
use biefircate.Stage1.Rimg.DevIds.{IsIdList, rimg_pcir_find_dev_id_list_lem}

-- The headers of an image of 512 bytes, with one more device id.
abbrev pub headers : List ℕ
headers =
    85 ∷ 170 ∷ 1 ∷ 0 ∷ 0 ∷ 0 ∷ 0 ∷ 0 ∷ 0 ∷ 0 ∷ 0 ∷ 0 ∷ 0 ∷ 0 ∷ 0 ∷ 0 ∷ 0 ∷ 0 ∷ 0 ∷ 0 ∷ 0 ∷ 0 ∷ 0 ∷ 0
    ∷ 28 ∷ 0 ∷ 0 ∷ 0 ∷ 80 ∷ 67 ∷ 73 ∷ 82 ∷ 134 ∷ 128 ∷ 52 ∷ 18 ∷ 24 ∷ 0 ∷ 24 ∷ 0 ∷ 3 ∷ 0 ∷ 0 ∷ 3 ∷ 1
    ∷ 0 ∷ 0 ∷ 0 ∷ 0 ∷ 128 ∷ 1 ∷ 0 ∷ 53 ∷ 18 ∷ 0 ∷ 0 ∷ []

abbrev pub image : List ℕ
image = headers ++ replicate 455 0 ++ 107 ∷ []

runs_find : rimg_find_pcir image 512 ≡ ok (some 28)
unfolding rimg_find_pcir check_pcir check_image compute_cksum subtract_bytes read8 read16 read32
runs_find = refl

runs_ids : rimg_pcir_find_dev_id_list image 28 512 ≡ ok (some 52)
unfolding rimg_pcir_find_dev_id_list list_ends read8 read16
runs_ids = refl

All-replicate : (n : ℕ) → All IsByte (replicate n 0)
All-replicate zero = tt
All-replicate (suc n) = (omega arith, All-replicate n)

pub image-IsByte : All IsByte image
image-IsByte =
    All-append IsByte headers (replicate 455 0 ++ 107 ∷ []) (omega arith)
      (All-append IsByte (replicate 455 0) (107 ∷ []) (All-replicate 455) (omega arith, tt))

rimg_find_pcir_lem_example :
    (r : Option ℕ) × (rimg_find_pcir image 512 ≡ ok r)
    × ((p : ℕ)
        → r ≡ some p
        → IsPcir image 512 p
          × (p ≡ word_at image 0x18)
          × (long_at image p ≡ pcir_sig_pcir)
          × (word_at image 0 ≡ 0xaa55))
rimg_find_pcir_lem_example = rimg_find_pcir_lem image 512 image-IsByte (omega arith) (omega arith)

rimg_find_lem_example :
    (sz : ℕ) × (rimg_find image ≡ ok sz)
    × (0 < sz
        → (sz ≡ byte_at image 2 * hkibyte)
          × (sz ≤ 0x7f * hkibyte)
          × (word_at image 0 ≡ 0xaa55)
          × (sum image 0 sz % 256 ≡ 0))
rimg_find_lem_example = rimg_find_lem image image-IsByte (omega arith) (omega arith)

rimg_pcir_find_dev_id_list_lem_example :
    (r : Option ℕ) × (rimg_pcir_find_dev_id_list image 28 512 ≡ ok r)
    × ((d : ℕ)
        → r ≡ some d
        → (3 ≤ byte_at image (28 + 12))
          × (d ≡ 28 + word_at image (28 + 8))
          × ((n : ℕ) × IsIdList image 512 d n))
rimg_pcir_find_dev_id_list_lem_example =
    rimg_pcir_find_dev_id_list_lem image 28 512 (omega arith) (omega arith)

abbrev table : List ℕ
table = 1 ∷ 2 ∷ 3 ∷ 4 ∷ 5 ∷ 1 ∷ 2 ∷ 7 ∷ []

memcmp_lem_example : (r : Order) × (memcmp table 0 5 3 ≡ ok r) × Tells table 0 5 3 r
memcmp_lem_example = memcmp_lem table 0 5 3 (omega arith) (omega arith)

runs_memcmp : memcmp table 0 5 3 ≡ ok Order.less
unfolding memcmp read8
runs_memcmp = refl

update_cksum_lem_example :
    (buf' : List ℕ) × (update_cksum table 1 6 4 ≡ ok buf')
    × (compute_cksum buf' 1 6 ≡ ok 0)
    × ((q : ℕ) → q ≢ 4 → byte_at buf' q ≡ byte_at table q)
update_cksum_lem_example =
    update_cksum_lem table 1 6 4 (omega arith) (omega arith) (omega arith) (omega arith)
