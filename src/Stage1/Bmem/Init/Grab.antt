-- ===== src/Stage1/Bmem/Init/Grab.antt =====
-- What bmem_init of stage1/bmem.c asks of the firmware's AllocatePages, and what it gets.
use biefircate.Prelude.{
  ℕ, zero, suc, ◌+◌, ◌-◌, ◌*◌, ◌/◌, ◌^◌, ◌%◌, ◌≤◌, ◌<◌, ◌≡◌, inl, inr, refl, ap, sym, ◌∙◌, Bool,
  true, false, ◌&&◌, ◌||◌, Option, none, some, arith, ltb, leb, ◌==◌, Bool-cases, Option-cases,
  Outcome, ok, ◌>>=◌,
}
use biefircate.Prelude.Words.{u32}
use native.Mathlib.Nat.{pow-suc}
use biefircate.Stage1.Bmem.{page_size, bmem_max_addr}
use biefircate.Stage1.Bmem.Init.{set_pages, grab}
use biefircate.Stage1.Bmem.Init.Mark.{set_pages_lem}

-- AllocatePages, asked for pages below 1 MiB: `owned` are the pages that it has handed out to the
-- program, and `left` is a bound on how many more it can. What it gives lies below the limit, and is
-- handed out afterwards; where it gives nothing, nothing changes.
pub record IsFirmware {F : Type 0} (allocate_pages : F → ℕ → Option ℕ × F) (owned : F → ℕ → Bool)
    (left : F → ℕ) : Type 0 where
  pub fits :
      (fw : F) (n a : ℕ)
      → 0 < n
      → (allocate_pages fw n).0 ≡ some a
      → (a % 4096 ≡ 0) × (a + n * 4096 ≤ bmem_max_addr)
  pub takes :
      (fw : F) (n a : ℕ)
      → 0 < n
      → (allocate_pages fw n).0 ≡ some a
      → left (allocate_pages fw n).1 + n ≤ left fw
  pub owns :
      (fw : F) (n a k : ℕ)
      → 0 < n
      → (allocate_pages fw n).0 ≡ some a
      → owned (allocate_pages fw n).1 k ≡ (owned fw k || (leb (a / 4096) k && ltb k (a / 4096 + n)))
  pub keeps_left :
      (fw : F) (n : ℕ) → (allocate_pages fw n).0 ≡ none → left (allocate_pages fw n).1 ≡ left fw
  pub keeps :
      (fw : F) (n k : ℕ)
      → (allocate_pages fw n).0 ≡ none
      → owned (allocate_pages fw n).1 k ≡ owned fw k

module _ {F : Type 0} (allocate_pages : F → ℕ → Option ℕ × F) (rounds count : ℕ) (fw : F)
    (avail : ℕ → Bool) where
  grab-given :
      (a : ℕ)
      → (allocate_pages fw count).0 ≡ some a
      → grab allocate_pages (suc rounds) fw count avail ≡ (
          set_pages avail (u32 (a / page_size)) count >>= λ avail'.
          grab allocate_pages rounds (allocate_pages fw count).1 (2 ^ 64 - 1) avail')
  unfolding grab
  grab-given a e = rw (e, grab) refl

  grab-last :
      (allocate_pages fw count).0 ≡ none
      → (count / 2 == 0) ≡ true
      → grab allocate_pages (suc rounds) fw count avail ≡ ok (avail, (allocate_pages fw count).1)
  unfolding grab
  grab-last e g = rw (e, g, grab) refl

  grab-more :
      (allocate_pages fw count).0 ≡ none
      → (count / 2 == 0) ≡ false
      → grab allocate_pages (suc rounds) fw count avail
        ≡ grab allocate_pages rounds (allocate_pages fw count).1 (count / 2) avail
  unfolding grab
  grab-more e g = rw (e, g, grab) refl

module _ {F : Type 0} (allocate_pages : F → ℕ → Option ℕ × F) (owned : F → ℕ → Bool) (left : F → ℕ)
    (law : IsFirmware allocate_pages owned left) where
  -- The loops end, and the bits are those of the pages that the firmware has handed out.
  pub grab_lem :
      (rounds bits count : ℕ) (fw : F) (avail : ℕ → Bool)
      → 0 < count
      → count < 2 ^ bits
      → bits ≤ 64
      → left fw * 65 + bits ≤ rounds
      → ((k : ℕ) → avail k ≡ owned fw k)
      → (avail' : ℕ → Bool) × (fw' : F) × (grab allocate_pages rounds fw count avail
          ≡ ok (avail', fw'))
        × ((k : ℕ) → avail' k ≡ owned fw' k)
  unfolding grab
  grab_lem rounds zero count fw avail pos small le many same = absurd (omega arith)
  grab_lem zero (suc bits) count fw avail pos small le many same = absurd (omega arith)
  grab_lem (suc rounds) (suc bits) count fw avail pos small le many same =
      elim (Option-cases (allocate_pages fw count).0) [
        | inl refused ↦ elim (Bool-cases (count / 2 == 0)) [
          | inl last ↦ (
            avail,
            (allocate_pages fw count).1,
            grab-last allocate_pages rounds count fw avail refused last,
            λ k. same k ∙ sym (law.keeps fw count k refused),
          )
          | inr more ↦
              let (avail', fw', done, law') =
                grab_lem rounds bits (count / 2) (allocate_pages fw count).1 avail (ground arith)
                  (omega (arith, pow-suc 2 bits)) (omega arith)
                  (omega (arith, law.keeps_left fw count refused))
                  (λ k. same k ∙ sym (law.keeps fw count k refused)) in
              (
                avail',
                fw',
                grab-more allocate_pages rounds count fw avail refused more ∙ done,
                law',
              )
        ]
        | inr (a, given) ↦
            let (whole, fits) = law.fits fw count a pos given in
            let (avail1, set, bits_law) = set_pages_lem avail (a / 4096) count (omega arith) in
            let (avail', fw', done, law') =
              grab_lem rounds 64 (2 ^ 64 - 1) (allocate_pages fw count).1 avail1 (omega arith)
                (omega arith) (omega arith) (omega (arith, law.takes fw count a pos given))
                (λ k. bits_law k ∙ rw (same k) (sym (law.owns fw count a k pos given))) in
            let at : u32 (a / page_size) ≡ a / 4096 = omega arith in
            let go : ℕ → Outcome ((ℕ → Bool) × F) = λ i. set_pages avail i count >>= λ avail2.
            grab allocate_pages rounds (allocate_pages fw count).1 (2 ^ 64 - 1) avail2 in
            (
              avail',
              fw',
              grab-given allocate_pages rounds count fw avail a given ∙ ap go at ∙ rw set done,
              law',
            )
      ]
