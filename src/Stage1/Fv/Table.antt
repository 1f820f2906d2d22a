-- ===== src/Stage1/Fv/Table.antt =====
-- The hash table of stage1/fv.c is a map from pairs of a PCI id and a class code to ROM images.
use biefircate.Prelude.{
  ℕ, zero, suc, ◌+◌, ◌*◌, ◌≤◌, ◌<◌, ◌≡◌, ◌≢◌, inl, inr, refl, ap, ◌∙◌, Bool, true, false, ◌&&◌,
  ◌||◌, Option, some, List, ◌∷◌, arith, length, ◌==◌, ◌!=◌, if◌then◌else◌, Bool-cases, bind_ok,
  ◌>>=◌, ok,
}
use biefircate.Stage1.Rimg.Pcir.{word_at, read16-word_at}
use biefircate.Stage1.Util.{read16}
use biefircate.Stage1.Rimg.DevIds.{IsIdList}
use biefircate.Stage1.Fv.{
  HtNode, State, fv_hash_bucket, fv_add_hash_entry, find_in, fv_find_rimg, add_ids, pci_make_id,
  pci_id_vendor,
}

-- A node has a key.
abbrev pub has_key : HtNode → ℕ → ℕ → Bool
has_key node pci_id class_if = node.pci_id == pci_id && node.class_if == class_if

abbrev added : HtNode → State → State
added node s = record s {
  ht = λ b. if b == fv_hash_bucket node.pci_id node.class_if then node ∷ s.ht b else s.ht b;
  pools = s.pools + 1;
}

added-find :
    (node : HtNode) (s : State) (pci_id class_if : ℕ)
    → fv_find_rimg (added node s) pci_id class_if ≡ (
        if has_key node pci_id class_if
        then some (node.rimg_copy, node.rimg_sz)
        else fv_find_rimg s pci_id class_if)
unfolding fv_find_rimg find_in
added-find node s pci_id class_if = elim (Bool-cases (has_key node pci_id class_if)) [
  | inl e ↦
      let e1 : node.pci_id ≡ pci_id = ground arith in
      let e2 : node.class_if ≡ class_if = ground arith in
      let same : (fv_hash_bucket pci_id class_if == fv_hash_bucket node.pci_id node.class_if)
          ≡ true =
        rw (e1, e2) (ground arith) in
      rw (same, e) refl
  | inr e ↦
      elim (Bool-cases
        (fv_hash_bucket pci_id class_if == fv_hash_bucket node.pci_id node.class_if)) [
          | inl same ↦ rw (same, e) refl
          | inr other ↦ rw (other, e) refl
        ]
]

-- With memory for a node, adding an entry makes the table give its image for its key, and leaves
-- what the table gives for any other key.
pub fv_add_hash_entry_lem :
    (pool : ℕ → Bool) (node : HtNode) (s : State)
    → pool s.pools ≡ true
    → (s' : State) × (fv_add_hash_entry pool node s ≡ ok s')
      × ((pci_id class_if : ℕ)
          → fv_find_rimg s' pci_id class_if ≡ (
              if has_key node pci_id class_if
              then some (node.rimg_copy, node.rimg_sz)
              else fv_find_rimg s pci_id class_if))
unfolding fv_add_hash_entry
fv_add_hash_entry_lem pool node s mem = (added node s, rw mem refl, added-find node s)

-- An entry writes no byte of an image.
pub fv_add_hash_entry-byte :
    (pool : ℕ → Bool) (node : HtNode) (s s' : State)
    → fv_add_hash_entry pool node s ≡ ok s'
    → s'.byte ≡ s.byte
unfolding fv_add_hash_entry
fv_add_hash_entry-byte pool node s s' h = elim (Bool-cases (pool s.pools)) [
  | inl e ↦ let is : ok (added node s) ≡ ok s' = rw e at h in cc
  | inr e ↦ absurd (let no_way = rw e at h in cc)
]

-- One of the `n` device ids from index `p` on makes a PCI id with a vendor.
unfoldable pub is_listed : List ℕ → ℕ → ℕ → ℕ → ℕ → Bool
is_listed rimg p zero vendor pci_id = false
is_listed rimg p (suc n) vendor pci_id =
    pci_make_id vendor (word_at rimg p) == pci_id || is_listed rimg (p + 2) n vendor pci_id

IsIdList-rest :
    (rimg : List ℕ) (rimg_end p n : ℕ)
    → IsIdList rimg rimg_end p (suc n)
    → IsIdList rimg rimg_end (p + 2) n
IsIdList-rest rimg rimg_end p n list = record {
  ids = λ i lt.
      let e : p + 2 + 2 * i ≡ p + 2 * suc i = omega arith in rw e (list.ids (suc i) (omega arith));
  last = let e : p + 2 + 2 * n ≡ p + 2 * suc n = omega arith in rw e list.last;
  inside = omega (arith, list.inside);
}

IsIdList-first :
    (rimg : List ℕ) (rimg_end p n : ℕ)
    → IsIdList rimg rimg_end p (suc n)
    → (word_at rimg p == 0) ≡ false
IsIdList-first rimg rimg_end p n list =
    let e : p + 2 * 0 ≡ p = omega arith in
    let ne : word_at rimg p ≢ 0 = rw e at (list.ids 0 (omega arith)) in ground arith

either_way : (b : Bool) (x y : Option (ℕ × ℕ)) → y ≡ x → (if b then x else y) ≡ x
either_way true x y e = refl
either_way false x y e = e

merge :
    (a b c : Bool) (x y : Option (ℕ × ℕ))
    → (if a && c then x else if b && c then x else y) ≡ (if (b || a) && c then x else y)
merge true true true x y = refl
merge true true false x y = refl
merge true false true x y = refl
merge true false false x y = refl
merge false true true x y = refl
merge false true false x y = refl
merge false false true x y = refl
merge false false false x y = refl

-- One round of the loop: an entry for the id, unless it is the first one's.
entry_lem :
    (pool : ℕ → Bool) (first : HtNode) (id : ℕ) (s : State)
    → ((k : ℕ) → pool k ≡ true)
    → fv_find_rimg s first.pci_id first.class_if ≡ some (first.rimg_copy, first.rimg_sz)
    → (s1 : State) × ((if id != first.pci_id
          then fv_add_hash_entry pool (record first { pci_id = id }) s
          else ok s)
        ≡ ok s1)
      × ((pci_id class_if : ℕ)
          → fv_find_rimg s1 pci_id class_if ≡ (
              if id == pci_id && first.class_if == class_if
              then some (first.rimg_copy, first.rimg_sz)
              else fv_find_rimg s pci_id class_if))
entry_lem pool first id s mem cached = elim (Bool-cases (id != first.pci_id)) [
  | inl new ↦
      let (s1, found, law) =
        fv_add_hash_entry_lem pool (record first { pci_id = id }) s (mem s.pools) in
      (s1, rw new found, law)
  | inr old ↦
      let e : first.pci_id ≡ id = ground arith in
      (
        s,
        rw old refl,
        λ pci_id class_if. elim (Bool-cases (id == pci_id && first.class_if == class_if)) [
          | inl hit ↦
              let e1 : pci_id ≡ first.pci_id = ground arith in
              let e2 : class_if ≡ first.class_if = ground arith in rw (hit, e1, e2) cached
          | inr miss ↦ rw miss refl
        ],
      )
]

-- A state that gives an image for a key already gives it, and for the listed ids, is what the loop
-- makes.
pub add_ids_lem :
    (pool : ℕ → Bool) (rimg : List ℕ) (first : HtNode) (rimg_end n rounds p : ℕ) (s : State)
    → ((k : ℕ) → pool k ≡ true)
    → rimg_end ≤ length rimg
    → n < rounds
    → IsIdList rimg rimg_end p n
    → fv_find_rimg s first.pci_id first.class_if ≡ some (first.rimg_copy, first.rimg_sz)
    → (s' : State) × (add_ids rounds pool rimg p first s ≡ ok s')
      × ((pci_id class_if : ℕ)
          → fv_find_rimg s' pci_id class_if ≡ (
              if is_listed rimg p n (pci_id_vendor first.pci_id) pci_id
                && first.class_if == class_if
              then some (first.rimg_copy, first.rimg_sz)
              else fv_find_rimg s pci_id class_if))
unfolding add_ids is_listed
add_ids_lem pool rimg first rimg_end n zero p s mem l more list cached = absurd (omega arith)
add_ids_lem pool rimg first rimg_end zero (suc rounds) p s mem l more list cached =
    let e : p + 2 * 0 ≡ p = omega arith in
    let read = read16-word_at rimg p (omega (arith, list.inside)) in
    let over : (word_at rimg p == 0) ≡ true = let z = rw e at list.last in ground arith in
    (s, rw (read, over) refl, λ pci_id class_if. refl)
add_ids_lem pool rimg first rimg_end (suc n) (suc rounds) p s mem l more list cached =
    let read = read16-word_at rimg p (omega (arith, list.inside)) in
    let id = pci_make_id (pci_id_vendor first.pci_id) (word_at rimg p) in
    let (s1, entered, law) = entry_lem pool first id s mem cached in
    let cached1 : fv_find_rimg s1 first.pci_id first.class_if
        ≡ some (first.rimg_copy, first.rimg_sz) =
      law first.pci_id first.class_if
      ∙ either_way (id == first.pci_id && first.class_if == first.class_if) _ _ cached in
    let (s', done, rest) =
      add_ids_lem pool rimg first rimg_end n rounds (p + 2) s1 mem l (omega arith)
        (IsIdList-rest rimg rimg_end p n list) cached1 in
    (
      s',
      rw (read, IsIdList-first rimg rimg_end p n list) (rw entered done),
      λ pci_id class_if.
          rest pci_id class_if
          ∙ ap
              (λ o.
                if is_listed rimg (p + 2) n (pci_id_vendor first.pci_id) pci_id
                  && first.class_if == class_if
                then some (first.rimg_copy, first.rimg_sz)
                else o)
              (law pci_id class_if)
          ∙ merge (is_listed rimg (p + 2) n (pci_id_vendor first.pci_id) pci_id) (id == pci_id)
              (first.class_if == class_if) _ _,
    )

pub add_ids-byte :
    (rounds : ℕ) (pool : ℕ → Bool) (rimg : List ℕ) (p : ℕ) (first : HtNode) (s s' : State)
    → add_ids rounds pool rimg p first s ≡ ok s'
    → s'.byte ≡ s.byte
unfolding add_ids
add_ids-byte zero pool rimg p first s s' h = absurd (let no_way = h in cc)
add_ids-byte (suc rounds) pool rimg p first s s' h =
    let (dev, found, h1) = bind_ok (read16 rimg p) _ h in
    elim (Bool-cases (dev == 0)) [
      | inl e ↦ let is : ok s ≡ ok s' = rw e at h1 in cc
      | inr e ↦
          let id = pci_make_id (pci_id_vendor first.pci_id) dev in
          let step =
            if id != first.pci_id
            then fv_add_hash_entry pool (record first { pci_id = id }) s
            else ok s in
          let h2 : (step >>= λ s1. add_ids rounds pool rimg (p + 2) first s1) ≡ ok s' =
            rw e at h1 in
          let (s1, entered, h3) = bind_ok step _ h2 in
          add_ids-byte rounds pool rimg (p + 2) first s1 s' h3
          ∙ elim (Bool-cases (id != first.pci_id)) [
            | inl new ↦
                fv_add_hash_entry-byte pool (record first { pci_id = id }) s s1 (rw new at entered)
            | inr old ↦ let is : ok s ≡ ok s1 = rw old at entered in cc
          ]
    ]
