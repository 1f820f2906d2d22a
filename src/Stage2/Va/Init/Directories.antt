-- ===== src/Stage2/Va/Init/Directories.antt =====
-- The page directories that va_init of stage2/mem.c makes: four empty ones, on pages of their own.
use biefircate.Prelude.{
  ℕ, zero, suc, ◌+◌, ◌/◌, ◌^◌, ◌%◌, ◌<◌, ◌≡◌, ◌≢◌, inl, inr, refl, ap, sym, ◌∙◌, subst, bit_and,
  bit_or, true, false, arith, ◌==◌, if◌then◌else◌, Bool-cases, Ends, Ends-bind, Ends-imp,
}
use biefircate.Prelude.Words.{u32, neg_w}
use biefircate.Stage2.Mem
use biefircate.Stage2.Mem.{mem_alloc}
use biefircate.Stage2.Mem.Alloc.{IsValid}
use biefircate.Stage2.Mem.Grows.{Grows, Grows-refl, Grows-trans}
use biefircate.Stage2.Vm.{State, page_size, pdpt_align, pte_p, pd_of}
use biefircate.Stage2.Vm.Entries.{directory_entry_lem}
use biefircate.Stage2.Vm.Tables.{pde_at, has_pt, leaf, IsTaken, IsTables, leaf-no_pt}
use biefircate.Stage2.Vm.Ensure.{IsNewPage, IsPageFor, mem_alloc-IsNewPage}
use biefircate.Stage2.Va.Init.{with_directory, add_directories}

-- The first `i` directories are there.
pub record AreDirectories (s : State) (i : ℕ) : Type 0 where
  pub valid : IsValid s.mem
  pub taken : (j : ℕ) → j < i → IsTaken s (pd_of s j)
  pub apart : (j k : ℕ) → j < i → k < i → j ≢ k → pd_of s j ≢ pd_of s k
  pub empty : (j k : ℕ) → j < i → s.table (pd_of s j) k ≡ 0

-- One directory more.
module _ (s : State) (i a : ℕ) (mem : Mem.State) (page : IsNewPage s a mem) where
  abbrev more : State
  more = with_directory (record s { mem = mem }) i a

  more-pd_of : (j : ℕ) → pd_of more j ≡ (if j == i then a else pd_of s j)
  unfolding pd_of
  more-pd_of j = elim (Bool-cases (j == i)) [
    | inl e ↦ rw e (
        subst (λ p. bit_and (u32 (bit_or (u32 p) pte_p)) (neg_w 32 pdpt_align) ≡ p)
          (sym page.by_pages) (directory_entry_lem page.q page.in_word))
    | inr e ↦ rw e refl
  ]

  more-new : more.mem.mem_ranges ≡ mem.mem_ranges
  more-new = refl

  pd_of-here : (j : ℕ) → (j == i) ≡ true → pd_of more j ≡ a
  pd_of-here j e = more-pd_of j ∙ rw e refl

  pd_of-there : (j : ℕ) → (j == i) ≡ false → pd_of more j ≡ pd_of s j
  pd_of-there j e = more-pd_of j ∙ rw e refl

  module _ (d : AreDirectories s i) where
    not_new : (j : ℕ) → j < i → pd_of s j ≢ a
    not_new j l same = page.new (subst (IsTaken s) same (d.taken j l))

    more-taken : (j : ℕ) → j < suc i → IsTaken more (pd_of more j)
    more-taken j l = elim (Bool-cases (j == i)) [
      | inl e ↦ subst (IsTaken more) (sym (pd_of-here j e)) page.taken
      | inr e ↦
          subst (IsTaken more) (sym (pd_of-there j e))
            (page.keeps (pd_of s j) (d.taken j (ground arith)))
    ]

    more-apart : (j k : ℕ) → j < suc i → k < suc i → j ≢ k → pd_of more j ≢ pd_of more k
    more-apart j k jl kl ne same = elim (Bool-cases (j == i)) [
      | inl e ↦ elim (Bool-cases (k == i)) [
        | inl g ↦ ne (ground arith)
        | inr g ↦ not_new k (ground arith) (sym (pd_of-there k g) ∙ sym same ∙ pd_of-here j e)
      ]
      | inr e ↦ elim (Bool-cases (k == i)) [
        | inl g ↦ not_new j (ground arith) (sym (pd_of-there j e) ∙ same ∙ pd_of-here k g)
        | inr g ↦
            d.apart j k (ground arith) (ground arith) ne
              (sym (pd_of-there j e) ∙ same ∙ pd_of-there k g)
      ]
    ]

    more-empty : (j k : ℕ) → j < suc i → more.table (pd_of more j) k ≡ 0
    more-empty j k l = elim (Bool-cases (j == i)) [
      | inl e ↦
          let same : (a == a) ≡ true = ground arith in
          ap (λ p. more.table p k) (pd_of-here j e) ∙ rw same refl
      | inr e ↦
          let other : (pd_of s j == a) ≡ false = ground (arith, not_new j) in
          ap (λ p. more.table p k) (pd_of-there j e) ∙ rw other (d.empty j k (ground arith))
    ]

    more-AreDirectories : AreDirectories more (suc i)
    more-AreDirectories = record {
      valid = page.valid;
      taken = more-taken;
      apart = more-apart;
      empty = more-empty;
    }

-- What the loop leaves: the directories, and a map that has only grown.
abbrev pub AreAdded : ℕ → State → State → Type 0
AreAdded n s s' =
    AreDirectories s' n × (s'.unused_va_ranges ≡ s.unused_va_ranges) × Grows s.mem s'.mem

add_directories_from :
    (left i n : ℕ) (s : State)
    → left + i ≡ n
    → AreDirectories s i
    → Ends (AreAdded n s) (add_directories left i s)
unfolding add_directories
add_directories_from zero i n s sum d =
    let e : i ≡ n = omega arith in (subst (AreDirectories s) e d, refl, Grows-refl s.mem)
add_directories_from (suc left) i n s sum d =
    Ends-bind (IsPageFor s) (AreAdded n s) (mem_alloc s.mem page_size page_size 0) _
      (mem_alloc-IsNewPage s d.valid)
      λ (a, mem) page.
        let s1 = more s i a mem page in
        let d1 = subst (AreDirectories s1) (omega arith) (more-AreDirectories s i a mem page d) in
        Ends-imp (AreAdded n s1) (AreAdded n s) (add_directories left (i + 1) s1)
          (λ s2 (d2, same, grows). (d2, same, Grows-trans s.mem s1.mem s2.mem page.grows grows))
          (add_directories_from left (i + 1) n s1 (omega arith) d1)

-- Four empty directories are page tables that map nothing.
module _ (s : State) (d : AreDirectories s 4) where
  no_pt : (n : ℕ) → n < 2048 → has_pt s n ≡ false
  no_pt n l = let e : pde_at s n ≡ 0 = d.empty (n / 512) (n % 512) (omega arith) in rw e refl

  pub directories-IsTables : IsTables s
  directories-IsTables = record {
    valid = d.valid;
    pd_taken = d.taken;
    pd_ne = λ i j il jl ne. d.apart i j il jl ne;
    pt_taken = λ n l h. absurd (let e = no_pt n l in cc);
    pt_pd = λ n i l il h. absurd (let e = no_pt n l in cc);
    pt_ne = λ m n ml nl ne h g. absurd (let e = no_pt m ml in cc);
  }

  pub directories-leaf : (u : ℕ) → u < 2 ^ 20 → leaf s u ≡ 0
  directories-leaf u l =
      let e : pde_at s (u / 512) ≡ 0 = d.empty (u / 512 / 512) (u / 512 % 512) (omega arith) in
      leaf-no_pt s u (no_pt (u / 512) (omega arith)) ∙ rw e refl

-- The loop of `va_init` over the four directories.
pub add_directories_lem : (s : State) → IsValid s.mem → Ends (AreAdded 4 s) (add_directories 4 0 s)
add_directories_lem s v = add_directories_from 4 0 4 s refl (record {
  valid = v;
  taken = λ j l. absurd (omega arith);
  apart = λ j k jl kl ne same. absurd (omega arith);
  empty = λ j k l. absurd (omega arith);
})
