-- ===== src/Stage1/Fv/Cache.antt =====
-- fv_cache_rimg of stage1/fv.c: the keys under which it enters an image.
use biefircate.Prelude.{
  ℕ, ◌-◌, leb, ltb, ◌+◌, ◌*◌, ◌^◌, ◌≤◌, ◌<◌, ◌≡◌, ◌≢◌, ◌⊎◌, inl, inr, refl, ap, ◌∙◌, bit_or, Bool,
  true, false, ◌&&◌, ◌||◌, Option, none, some, List, arith, length, ◌==◌, if◌then◌else◌,
  Option-cases, ok,
}
use biefircate.Stage1.Util.Cksum.{byte_at, read8-byte_at}
use biefircate.Stage1.Rimg.{rimg_pcir_find_dev_id_list}
use biefircate.Stage1.Rimg.Pcir.{long_at, read32-long_at}
use biefircate.Stage1.Rimg.DevIds.{IsIdList, rimg_pcir_find_dev_id_list_lem}
use biefircate.Stage1.Fv.{
  HtNode, State, fv_find_rimg, pci_id_vendor, pcir_class_if, copy_rimg, fv_cache_rimg,
}
use biefircate.Stage1.Fv.Table.{
  is_listed, add_ids_lem, fv_add_hash_entry_lem, fv_add_hash_entry-byte, add_ids-byte,
}

abbrev pub class_at : List ℕ → ℕ → ℕ
class_at rimg p =
    bit_or (byte_at rimg (p + 15) * 2 ^ 24)
      (bit_or (byte_at rimg (p + 14) * 2 ^ 16) (byte_at rimg (p + 13) * 2 ^ 8))

pcir_class_if-class_at :
    (rimg : List ℕ) (p : ℕ) → p + 15 < length rimg → pcir_class_if rimg p ≡ ok (class_at rimg p)
unfolding pcir_class_if
pcir_class_if-class_at rimg p l =
    rw
      (
        read8-byte_at rimg (p + 15) l,
        read8-byte_at rimg (p + 14) (omega arith),
        read8-byte_at rimg (p + 13) (omega arith),
      )
      refl

-- The device ids that an image lists besides its own: `n` of them from index `d` on.
abbrev pub Lists : List ℕ → ℕ → ℕ → ℕ → ℕ → Type 0
Lists rimg sz pcir d n =
    ((rimg_pcir_find_dev_id_list rimg pcir sz ≡ ok none) × (n ≡ 0))
    ⊎ ((rimg_pcir_find_dev_id_list rimg pcir sz ≡ ok (some d)) × IsIdList rimg sz d n)

-- The table `s'` gives the image under its own id and the listed ones, and what `s` does elsewhere.
abbrev pub IsCached : List ℕ → ℕ → ℕ → ℕ → ℕ → ℕ → State → State → Type 0
IsCached rimg copy sz pcir d n s s' =
    (pci_id class_if : ℕ)
    → fv_find_rimg s' pci_id class_if ≡ (
        if (is_listed rimg d n (pci_id_vendor (long_at rimg (pcir + 4))) pci_id
            || long_at rimg (pcir + 4) == pci_id)
          && class_at rimg pcir == class_if
        then some (copy, sz)
        else fv_find_rimg s pci_id class_if)

-- Memory holds the image at `copy`, and what it held elsewhere.
abbrev pub IsCopied : ℕ → List ℕ → ℕ → State → State → Type 0
IsCopied copy rimg sz s s' =
    (x : ℕ)
    → s'.byte x ≡ (if leb copy x && ltb x (copy + sz) then byte_at rimg (x - copy) else s.byte x)

merge :
    (a b c : Bool) (x y z : Option (ℕ × ℕ))
    → z ≡ (if b && c then x else y)
    → (if a && c then x else z) ≡ (if (a || b) && c then x else y)
merge true b true x y z e = refl
merge true true false x y z e = e
merge true false false x y z e = e
merge false b c x y z e = e

first_hit :
    (id class : ℕ) (x y : Option (ℕ × ℕ)) → (if id == id && class == class then x else y) ≡ x
first_hit id class x y = ground arith

-- `fv_cache_rimg`, for an image with its PCI Data Structure inside, when AllocatePool gives memory:
-- it returns, reads nothing behind the image, and enters the copy under the image's PCI id, and
-- under the vendor with each device id of the image's list, with the class code of the structure.
-- What the table gives for any other key stays. Memory holds the image's bytes at the copy, and what it
-- held elsewhere.
pub fv_cache_rimg_lem :
    (pool : ℕ → Bool) (copy : ℕ) (rimg : List ℕ) (sz pcir : ℕ) (s : State)
    → ((k : ℕ) → pool k ≡ true)
    → copy ≢ 0
    → sz ≤ length rimg
    → pcir + 22 ≤ sz
    → (s' : State) × (d : ℕ) × (n : ℕ) × (fv_cache_rimg pool copy rimg sz pcir s ≡ ok s')
      × Lists rimg sz pcir d n
      × IsCached rimg copy sz pcir d n s s'
      × IsCopied copy rimg sz s s'
unfolding copy_rimg fv_find_rimg fv_cache_rimg is_listed
fv_cache_rimg_lem pool copy rimg sz pcir s mem ne l inside =
    let first : HtNode = record {
      pci_id = long_at rimg (pcir + 4);
      class_if = class_at rimg pcir;
      rimg_copy = copy;
      rimg_sz = sz;
    } in
    let class = pcir_class_if-class_at rimg pcir (omega arith) in
    let own = read32-long_at rimg (pcir + 4) (omega arith) in
    let some_copy : (copy == 0) ≡ false = ground arith in
    let (s1, entered, law) =
      fv_add_hash_entry_lem pool first (copy_rimg copy rimg sz s) (mem s.pools) in
    let kept = fv_add_hash_entry-byte pool first (copy_rimg copy rimg sz s) s1 entered in
    let whole : ltb (length rimg) sz ≡ false = ground (arith, l) in
    let (r, ids, says) = rimg_pcir_find_dev_id_list_lem rimg pcir sz l inside in
    elim (Option-cases r) [
      | inl e ↦ (
        s1,
        0,
        0,
        rw (class, own, some_copy, whole, ids, e) (rw entered refl),
        inl (ids ∙ ap ok e, refl),
        law,
        λ x. ap (λ (f : ℕ → ℕ). f x) kept,
      )
      | inr (d, e) ↦
          let (rev, at, (n, list)) = says d e in
          let cached : fv_find_rimg s1 first.pci_id first.class_if ≡ some (copy, sz) =
            law first.pci_id first.class_if ∙ first_hit first.pci_id first.class_if _ _ in
          let (s', done, rest) =
            add_ids_lem pool rimg first sz n sz d s1 mem l (omega (arith, list.inside)) list
              cached in
          (
            s',
            d,
            n,
            rw (class, own, some_copy, whole, ids, e) (rw entered done),
            inr (ids ∙ ap ok e, list),
            λ pci_id class_if.
                rest pci_id class_if
                ∙ merge (is_listed rimg d n (pci_id_vendor first.pci_id) pci_id)
                    (first.pci_id == pci_id) (first.class_if == class_if) _ _ _
                    (law pci_id class_if),
            λ x. ap (λ (f : ℕ → ℕ). f x) (add_ids-byte sz pool rimg d first s1 s' done ∙ kept),
          )
    ]
