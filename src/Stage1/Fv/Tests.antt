-- ===== src/Stage1/Fv/Tests.antt =====
-- A run of the hash table of ROM images, and its theorems at concrete inputs.
use biefircate.Prelude.{
  ℕ, ◌≡◌, refl, Bool, true, some, Option, Outcome, ◌>>=◌, List, [], ◌∷◌, arith, if◌then◌else◌, ok,
}
use biefircate.Stage1.Fv.{
  HtNode, State, fv_add_hash_entry, fv_find_rimg, find_in, fv_hash_bucket, fv_cache_rimg, copy_rimg,
  pcir_class_if, add_ids,
}
use biefircate.Stage1.Fv.Gather.{
  gather, choose, cache_last, fv_gather_rimgs_for_one_sxn, fv_gather_rimgs_for_one_sxn_lem,
}
use biefircate.Stage1.Util.{read8, read16, read32, subtract_bytes, compute_cksum}
use biefircate.Stage1.Rimg.{
  check_image, check_pcir, rimg_find_pcir, list_ends, rimg_pcir_find_dev_id_list,
}
use biefircate.Stage1.Rimg.Tests.{image, image-IsByte}
use biefircate.Stage1.Fv.Table.{has_key, fv_add_hash_entry_lem}
use biefircate.Stage1.Fv.Cache.{Lists, IsCached, IsCopied, fv_cache_rimg_lem}

abbrev empty : State
empty = record { ht = λ b. []; pools = 0; byte = λ x. 0 }

abbrev vga : HtNode
vga = record { pci_id = 0x12348086; class_if = 0x03000000; rimg_copy = 0x5000; rimg_sz = 28 }

-- A PCI Data Structure of vendor 0x8086 with the device ids 0x1234 and 0x1235.
abbrev pcir : List ℕ
pcir =
    0x50 ∷ 0x43 ∷ 0x49 ∷ 0x52 ∷ 0x86 ∷ 0x80 ∷ 0x34 ∷ 0x12 ∷ 24 ∷ 0 ∷ 24 ∷ 0 ∷ 3 ∷ 0 ∷ 0 ∷ 3 ∷ 1 ∷ 0
    ∷ 0 ∷ 0 ∷ 0 ∷ 0x80 ∷ 1 ∷ 0 ∷ 0x35 ∷ 0x12 ∷ 0 ∷ 0 ∷ []

abbrev always : ℕ → Bool
always k = true

fv_add_hash_entry_lem_example :
    (s' : State) × (fv_add_hash_entry always vga empty ≡ ok s')
    × ((pci_id class_if : ℕ)
        → fv_find_rimg s' pci_id class_if ≡ (
            if has_key vga pci_id class_if
            then some (0x5000, 28)
            else fv_find_rimg empty pci_id class_if))
fv_add_hash_entry_lem_example = fv_add_hash_entry_lem always vga empty refl

fv_cache_rimg_lem_example :
    (s' : State) × (d : ℕ) × (n : ℕ) × (fv_cache_rimg always 0x5000 pcir 28 0 empty ≡ ok s')
    × Lists pcir 28 0 d n
    × IsCached pcir 0x5000 28 0 d n empty s'
    × IsCopied 0x5000 pcir 28 empty s'
fv_cache_rimg_lem_example =
    fv_cache_rimg_lem always 0x5000 pcir 28 0 empty (λ k. refl) (omega arith) (omega arith)
      (omega arith)

-- A section with one image, which is the last one of its ROM.
abbrev found : Outcome (Option (ℕ × ℕ))
found = fv_gather_rimgs_for_one_sxn always (λ k. 0x5000) image 512 empty >>= λ s.
    ok (fv_find_rimg s 0x12358086 0x03000000)

runs_gather : found ≡ ok (some (0x5000, 512))
unfolding fv_gather_rimgs_for_one_sxn gather choose cache_last fv_cache_rimg copy_rimg fv_find_rimg
    find_in fv_hash_bucket fv_add_hash_entry pcir_class_if add_ids rimg_find_pcir check_pcir
    check_image compute_cksum subtract_bytes rimg_pcir_find_dev_id_list list_ends read8 read16
    read32
runs_gather = refl

fv_gather_rimgs_for_one_sxn_lem_example :
    (s' : State) × (fv_gather_rimgs_for_one_sxn always (λ k. 0x5000) image 512 empty ≡ ok s')
fv_gather_rimgs_for_one_sxn_lem_example =
    fv_gather_rimgs_for_one_sxn_lem always (λ k. 0x5000) (λ k. refl) (λ k. omega arith) image 512
      empty image-IsByte (omega arith) (omega arith)
