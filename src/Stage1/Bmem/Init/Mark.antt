-- ===== src/Stage1/Bmem/Init/Mark.antt =====
-- The bits that bmem_init of stage1/bmem.c sets for the usable memory of the memory map.
use biefircate.Prelude.{
  ℕ, zero, suc, ◌+◌, ◌-◌, ◌/◌, ◌^◌, ◌≤◌, ◌<◌, ◌≡◌, inl, inr, refl, ap, ◌∙◌, bit_and, Bool, true,
  false, ◌&&◌, ◌||◌, List, [], ◌∷◌, arith, ltb, leb, ◌==◌, if◌then◌else◌, Bool-cases, Outcome, ok,
  ◌>>=◌, All,
}
use biefircate.Prelude.Words.{u32}
use biefircate.Stage1.Bmem.{page_size, bmem_max_addr}
use biefircate.Stage1.Bmem.Init.{Desc, num_pages, set_pages, is_usable, end_idx_of, mark}

-- Bits are set for a run of pages.
pub set_pages_lem :
    (avail : ℕ → Bool) (idx n : ℕ)
    → idx + n ≤ num_pages
    → (avail' : ℕ → Bool) × (set_pages avail idx n ≡ ok avail')
      × ((k : ℕ) → avail' k ≡ (avail k || (leb idx k && ltb k (idx + n))))
unfolding set_pages
set_pages_lem avail idx zero le = (avail, refl, λ k. ground arith)
set_pages_lem avail idx (suc n) le =
    let inside : ltb idx num_pages ≡ true = ground arith in
    let (avail', done, law) =
      set_pages_lem (λ k. if k == idx then true else avail k) (idx + 1) n (omega arith) in
    let next : u32 (idx + 1) ≡ idx + 1 = omega arith in
    (
      avail',
      rw inside
          (ap (λ (i : ℕ). set_pages (λ k. if k == idx then true else avail k) i n) next ∙ done),
      λ k. law k ∙ ground arith,
    )

-- The firmware's memory map has whole pages, and no range of more than 2 ^ 31 of them.
abbrev pub IsDesc : Desc → Type 0
IsDesc d = d.number_of_pages < 2 ^ 31

-- The descriptor has the page, below 1 MiB, and the page can be used at run time.
unfoldable pub is_covered : ℕ → List Desc → Bool
is_covered k [] = false
is_covered k (d ∷ ds) =
    ((is_usable d.type && ltb d.physical_start bmem_max_addr)
      && (ltb k num_pages
          && (leb (d.physical_start / page_size) k
              && ltb k (d.physical_start / page_size + d.number_of_pages))))
    || is_covered k ds

module _ (d : Desc) (ds : List Desc) (avail : ℕ → Bool) (attr : ℕ) where
  mark-usable :
      (is_usable d.type && ltb d.physical_start bmem_max_addr) ≡ true
      → mark (d ∷ ds) avail attr ≡ (
          set_pages avail (u32 (d.physical_start / page_size)) (
            end_idx_of (u32 (d.physical_start / page_size)) d.number_of_pages
            - u32 (d.physical_start / page_size))
          >>= λ avail'. mark ds avail' (bit_and attr d.attribute))
  unfolding mark
  mark-usable e = rw (e, mark) refl

  mark-skipped :
      (is_usable d.type && ltb d.physical_start bmem_max_addr) ≡ false
      → mark (d ∷ ds) avail attr ≡ mark ds avail attr
  unfolding mark
  mark-skipped e = rw (e, mark) refl

pub mark_lem :
    (ds : List Desc) (avail : ℕ → Bool) (attr : ℕ)
    → All IsDesc ds
    → (avail' : ℕ → Bool) × (attr' : ℕ) × (mark ds avail attr ≡ ok (avail', attr'))
      × ((k : ℕ) → avail' k ≡ (avail k || is_covered k ds))
unfolding mark is_covered
mark_lem [] avail attr h = (avail, attr, refl, λ k. ground arith)
mark_lem (d ∷ ds) avail attr (small, h) =
    elim (Bool-cases (is_usable d.type && ltb d.physical_start bmem_max_addr)) [
      | inl usable ↦
          let idx = d.physical_start / page_size in
          let low : d.physical_start < bmem_max_addr = ground arith in
          let count = end_idx_of idx d.number_of_pages - idx in
          let (avail1, set, law) = set_pages_lem avail idx count (ground arith) in
          let (avail', attr', done, law') = mark_lem ds avail1 (bit_and attr d.attribute) h in
          let at : u32 (d.physical_start / page_size) ≡ idx = omega arith in
          let go : ℕ → Outcome ((ℕ → Bool) × ℕ) = λ i.
            set_pages avail i (end_idx_of i d.number_of_pages - i) >>= λ avail'.
            mark ds avail' (bit_and attr d.attribute) in
          (
            avail',
            attr',
            mark-usable d ds avail attr usable ∙ ap go at ∙ rw set done,
            λ k. law' k ∙ rw (law k, usable) (ground arith),
          )
      | inr skipped ↦
          let (avail', attr', done, law') = mark_lem ds avail attr h in
          (
            avail',
            attr',
            mark-skipped d ds avail attr skipped ∙ done,
            λ k. law' k ∙ rw skipped (ground arith),
          )
    ]
