-- ===== src/Stage1/Rimg/DevIds.antt =====
-- rimg_pcir_find_dev_id_list of stage1/pci.c: the list that it gives ends inside the image.
use biefircate.Prelude.{
  ℕ, zero, suc, ◌+◌, ◌*◌, ◌≤◌, ◌<◌, ◌≡◌, ◌≢◌, inl, inr, refl, sym, Bool, true, false, ◌||◌, Option,
  none, some, List, arith, length, ltb, leb, ◌==◌, ◌!=◌, if◌then◌else◌, Bool-cases, ok,
}
use biefircate.Stage1.Util.Cksum.{byte_at, read8-byte_at}
use biefircate.Stage1.Rimg.{list_ends, rimg_pcir_find_dev_id_list}
use biefircate.Stage1.Rimg.Pcir.{word_at, read16-word_at}

-- From index `p` on there are `n` words that are not 0 and then one that is, all below `rimg_end`.
pub record IsIdList (rimg : List ℕ) (rimg_end p n : ℕ) : Type 0 where
  pub ids : (i : ℕ) → i < n → word_at rimg (p + 2 * i) ≢ 0
  pub last : word_at rimg (p + 2 * n) ≡ 0
  pub inside : p + 2 * n + 1 < rimg_end

IsIdList-suc :
    (rimg : List ℕ) (rimg_end p n : ℕ)
    → word_at rimg p ≢ 0
    → IsIdList rimg rimg_end (p + 2) n
    → IsIdList rimg rimg_end p (suc n)
IsIdList-suc rimg rimg_end p n ne h = record {
  ids = later;
  last = let e : p + 2 * suc n ≡ p + 2 + 2 * n = omega arith in rw e h.last;
  inside = omega (arith, h.inside);
}
  where
    later : (i : ℕ) → i < suc n → word_at rimg (p + 2 * i) ≢ 0
    later zero lt = let e : p + 2 * 0 ≡ p = omega arith in rw e ne
    later (suc i) lt =
        let e : p + 2 * suc i ≡ p + 2 + 2 * i = omega arith in rw e (h.ids i (omega arith))

list_ends_lem :
    (rounds : ℕ) (rimg : List ℕ) (rimg_end p : ℕ)
    → rimg_end ≤ length rimg
    → 0 < rounds
    → rimg_end < p + rounds
    → (b : Bool) × (list_ends rounds rimg rimg_end p ≡ ok b)
      × (b ≡ true → (n : ℕ) × IsIdList rimg rimg_end p n)
unfolding list_ends
list_ends_lem zero rimg rimg_end p l pos enough = absurd (omega arith)
list_ends_lem (suc rounds) rimg rimg_end p l pos enough =
    elim (Bool-cases (leb rimg_end p || leb rimg_end (p + 1))) [
      | inl out ↦ (false, rw out refl, λ h. cc)
      | inr inside ↦
          let low = read8-byte_at rimg p (ground arith) in
          let high = read8-byte_at rimg (p + 1) (ground arith) in
          elim (Bool-cases (byte_at rimg p != 0 || byte_at rimg (p + 1) != 0)) [
            | inl more ↦
                let (b, found, says) =
                  list_ends_lem rounds rimg rimg_end (p + 2) l (ground arith) (ground arith) in
                (
                  b,
                  rw (inside, low, high, more) found,
                  λ h.
                      let (n, list) = says h in
                      (suc n, IsIdList-suc rimg rimg_end p n (ground arith) list),
                )
            | inr over ↦ (
              true,
              rw (inside, low, high, over) refl,
              λ h. (
                0,
                record {
                  ids = λ i lt. absurd (omega arith);
                  last = let e : p + 2 * 0 ≡ p = omega arith in rw e (ground arith);
                  inside = ground arith;
                },
              ),
            )
          ]
    ]

-- `rimg_pcir_find_dev_id_list`, for a structure that lies inside the image: it always returns, and
-- reads nothing behind the image's end. A pointer that it returns is the one in a structure of
-- revision 3 or later, and points to a list of ids with a 0 behind the last, all inside the image.
pub rimg_pcir_find_dev_id_list_lem :
    (rimg : List ℕ) (pcir rimg_end : ℕ)
    → rimg_end ≤ length rimg
    → pcir + 22 ≤ rimg_end
    → (r : Option ℕ) × (rimg_pcir_find_dev_id_list rimg pcir rimg_end ≡ ok r)
      × ((d : ℕ)
          → r ≡ some d
          → (3 ≤ byte_at rimg (pcir + 12))
            × (d ≡ pcir + word_at rimg (pcir + 8))
            × ((n : ℕ) × IsIdList rimg rimg_end d n))
unfolding rimg_pcir_find_dev_id_list
rimg_pcir_find_dev_id_list_lem rimg pcir rimg_end l inside =
    let rev = read8-byte_at rimg (pcir + 12) (omega arith) in
    let off = read16-word_at rimg (pcir + 8) (omega arith) in
    let start = pcir + word_at rimg (pcir + 8) in
    elim (Bool-cases (ltb (byte_at rimg (pcir + 12)) 3)) [
      | inl old ↦ (none, rw (rev, old) refl, λ d h. cc)
      | inr new ↦ elim (Bool-cases (word_at rimg (pcir + 8) == 0)) [
        | inl bad ↦ (none, rw (rev, new, off, bad) refl, λ d h. cc)
        | inr there ↦
            let (b, found, says) =
              list_ends_lem (rimg_end + 1) rimg rimg_end start l (omega arith) (omega arith) in
            (
              if b then some start else none,
              rw (rev, new, off, there, found) refl,
              λ d h.
                  let ends : (b ≡ true) × (start ≡ d) = pick b start d h in
                  let list = says ends.0 in (ground arith, sym ends.1, rw (sym ends.1) list),
            )
      ]
    ]
  where
    pick :
        (b : Bool) (start d : ℕ)
        → (if b then some start else none) ≡ some d
        → (b ≡ true) × (start ≡ d)
    pick true start d h = (refl, cc)
    pick false start d h = cc
