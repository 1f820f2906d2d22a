-- ===== src/Stage1/Fv.antt =====
-- stage1/fv.c: the hash table of option ROM images found in firmware volumes. A bucket's chain is
-- the list of its nodes. AllocatePool is a parameter: `pool k` is whether the k-th call of it for a
-- node gives memory.
pub mod Table
pub mod Cache
pub mod Gather
mod Tests
use biefircate.Prelude.{
  ℕ, zero, suc, ◌-◌, ltb, leb, get_or, length, ◌+◌, ◌*◌, ◌/◌, ◌^◌, ◌%◌, bit_or, Bool, true, false,
  ◌&&◌, Option, none, some, List, [], ◌∷◌, ◌==◌, ◌!=◌, if◌then◌else◌, Outcome, ok, stop, Stop,
  ◌>>=◌,
}
use biefircate.Prelude.Words.{u16, u32}
use biefircate.Stage1.Util.{read8, read16, read32}
use biefircate.Stage1.Rimg.{rimg_pcir_find_dev_id_list}

-- HASH_BUCKETS.
abbrev pub hash_buckets : ℕ
hash_buckets = 1381

-- `ht_node_t`, less its `next`.
pub record HtNode : Type 0 where
  pub pci_id : ℕ
  pub class_if : ℕ
  pub rimg_copy : ℕ
  pub rimg_sz : ℕ

-- `ht`, how many nodes have been allocated, and the bytes of memory.
pub record State : Type 0 where
  pub ht : ℕ → List HtNode
  pub pools : ℕ
  pub byte : ℕ → ℕ

-- `fv_hash_bucket(pci_id, class_if)`.
unfoldable pub fv_hash_bucket : ℕ → ℕ → ℕ
fv_hash_bucket pci_id class_if = bit_or (pci_id * 2 ^ 32) class_if % hash_buckets

-- `fv_add_hash_entry(pci_id, class_if, rimg_copy, sz)`, for a node with these fields.
unfoldable pub fv_add_hash_entry : (ℕ → Bool) → HtNode → State → Outcome State
fv_add_hash_entry pool node s =
    let bucket = fv_hash_bucket node.pci_id node.class_if in
    if pool s.pools
    then ok
        (record s { ht = λ b. if b == bucket then node ∷ s.ht b else s.ht b; pools = s.pools + 1 })
    else stop Stop.error

-- The loop of `fv_find_rimg`.
unfoldable pub find_in : ℕ → ℕ → List HtNode → Option (ℕ × ℕ)
find_in pci_id class_if [] = none
find_in pci_id class_if (node ∷ nodes) =
    let rest = find_in pci_id class_if nodes in
    if node.pci_id == pci_id && node.class_if == class_if
    then some (node.rimg_copy, node.rimg_sz)
    else rest

-- `fv_find_rimg(pci_id, class_if, ...)`: the copy and its size.
unfoldable pub fv_find_rimg : State → ℕ → ℕ → Option (ℕ × ℕ)
fv_find_rimg s pci_id class_if = find_in pci_id class_if (s.ht (fv_hash_bucket pci_id class_if))

-- `pci_make_id(vendor, dev)`, and `pci_id_vendor(pci_id)`.
abbrev pub pci_make_id : ℕ → ℕ → ℕ
pci_make_id vendor dev = bit_or (u32 (dev * 2 ^ 16)) vendor

abbrev pub pci_id_vendor : ℕ → ℕ
pci_id_vendor pci_id = u16 pci_id

-- The class code of a PCI Data Structure at index `p`, in the upper three bytes.
unfoldable pub pcir_class_if : List ℕ → ℕ → Outcome ℕ
pcir_class_if rimg p = read8 rimg (p + 15) >>= λ base. read8 rimg (p + 14) >>= λ sub.
    read8 rimg (p + 13) >>= λ prog.
    ok (bit_or (base * 2 ^ 24) (bit_or (sub * 2 ^ 16) (prog * 2 ^ 8)))

-- The loop of `fv_cache_rimg` over the device ids from index `p` on; `first` is the node of
-- `pci_id_0`. An image of `n` bytes has fewer than `n` ids, so as many rounds are enough.
unfoldable pub add_ids : ℕ → (ℕ → Bool) → List ℕ → ℕ → HtNode → State → Outcome State
add_ids zero pool rimg p first s = stop Stop.out_of_fuel
add_ids (suc rounds) pool rimg p first s = read16 rimg p >>= λ dev.
    if dev == 0
    then ok s
    else let pci_id = pci_make_id (pci_id_vendor first.pci_id) dev in
      (if pci_id != first.pci_id
        then fv_add_hash_entry pool (record first { pci_id = pci_id }) s
        else ok s)
      >>= λ s'. add_ids rounds pool rimg (p + 2) first s'

-- `memcpy(rimg_copy, rimg, sz)`, for an image that has its `sz` bytes.
unfoldable pub copy_rimg : ℕ → List ℕ → ℕ → State → State
copy_rimg rimg_copy rimg sz s = record s {
  byte = λ x.
      if leb rimg_copy x && ltb x (rimg_copy + sz) then get_or rimg (x - rimg_copy) 0 else s.byte x;
}

-- `fv_cache_rimg(rimg, sz, pcir)`, where `rimg_copy` is what AllocatePool gives for the image.
unfoldable pub fv_cache_rimg : (ℕ → Bool) → ℕ → List ℕ → ℕ → ℕ → State → Outcome State
fv_cache_rimg pool rimg_copy rimg sz pcir s = pcir_class_if rimg pcir >>= λ class_if.
    read32 rimg (pcir + 4) >>= λ pci_id_0.
    if rimg_copy == 0
    then stop Stop.error
    else if ltb (length rimg) sz
    then stop Stop.fault
    else rimg_pcir_find_dev_id_list rimg pcir sz >>= λ dev_ids.
        let first : HtNode = record {
          pci_id = pci_id_0;
          class_if = class_if;
          rimg_copy = rimg_copy;
          rimg_sz = sz;
        } in
        fv_add_hash_entry pool first (copy_rimg rimg_copy rimg sz s) >>= λ s'. elim dev_ids [
          | none ↦ ok s'
          | some p ↦ add_ids sz pool rimg p first s'
        ]
