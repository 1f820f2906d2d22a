-- ===== src/Stage2/Vm/Ensure.antt =====
-- ensure_pt of stage2/mem.c gives a table of small pages and leaves how all pages are mapped.
use biefircate.Prelude.{
  ℕ, zero, suc, ◌+◌, ◌-◌, ◌*◌, ◌/◌, ◌^◌, ◌%◌, ◌<◌, ◌≡◌, inl, inr, refl, ap, sym, ◌∙◌, subst, true,
  false, ◌&&◌, some, arith, ltb, leb, ◌==◌, ◌!=◌, if◌then◌else◌, Bool-cases, Ends, Ends-bind,
  Ends-of,
}
use biefircate.Prelude.Words.{u64}
use biefircate.Prelude.Digits.{bit_and-le}
use biefircate.Bparams.{e820_reserved}
use biefircate.Stage2.Mem
use biefircate.Stage2.Mem.{mem_alloc}
use biefircate.Stage2.Mem.Layout.{type_of}
use biefircate.Stage2.Mem.Alloc.{IsValid, IsRequest, mem_alloc_lem}
use biefircate.Stage2.Mem.Ends.{mem_alloc-Ends}
use biefircate.Stage2.Mem.Grows.{Grows, Grows-refl, mem_alloc-Grows}
use biefircate.Stage2.Vm.{
  State, page_size, is_large, pt_of, pd_of, set_entry, set_table, small_of, fill_pt, new_row,
  table_entry, ensure_pt,
}
use biefircate.Stage2.Vm.Entries.{table_entry_lem}
use biefircate.Stage2.Vm.Tables.{
  pde_at, has_pt, leaf, IsKept, IsTaken, IsTables, leaf-pt, leaf-no_pt, leaf-same,
}
use biefircate.Stage2.Vm.Keep.{IsTables-keep}

-- The loop writes consecutive pages.
fill_pt_lem :
    (left i pte k : ℕ) (row : ℕ → ℕ)
    → pte < 2 ^ 64
    → fill_pt left i pte row k
      ≡ (if leb i k && ltb k (i + left) then u64 (pte + (k - i) * page_size) else row k)
unfolding fill_pt
fill_pt_lem zero i pte k row small = ground arith
fill_pt_lem (suc left) i pte k row small =
    let rest =
      fill_pt_lem left (i + 1) (u64 (pte + page_size)) k (λ j. if j == i then pte else row j)
        (omega arith) in
    rest ∙ ground arith

-- A page for a table that `mem_alloc` gives was not taken before, and is taken afterwards.
pub record IsNewPage (s : State) (a : ℕ) (mem : Mem.State) : Type 0 where
  pub valid : IsValid mem
  pub q : ℕ
  pub by_pages : a ≡ q * 4096
  pub in_word : q < 2 ^ 20
  pub taken : type_of a mem.mem_ranges ≡ some e820_reserved
  pub new : ¬ (IsTaken s a)
  pub keeps : (p : ℕ) → IsTaken s p → type_of p mem.mem_ranges ≡ some e820_reserved
  pub grows : Grows s.mem mem

page-IsRequest : IsRequest page_size page_size 0
page-IsRequest = record { size = omega arith; power = (12, 20, refl, refl); in_word = omega arith }

abbrev pub IsPageFor : State → ℕ × Mem.State → Type 0
IsPageFor s (a, mem) = IsNewPage s a mem

pub mem_alloc-IsNewPage :
    (s : State) → IsValid s.mem → Ends (IsPageFor s) (mem_alloc s.mem page_size page_size 0)
mem_alloc-IsNewPage s v =
    Ends-of (IsPageFor s) (mem_alloc s.mem page_size page_size 0)
      (λ (a, mem) e.
        let (aend, multiple, fits, near, below, ram, (valid, types)) =
          mem_alloc_lem s.mem mem page_size page_size 0 a v page-IsRequest e in
        record {
          valid = valid;
          q = a / 4096;
          by_pages = omega arith;
          in_word = omega arith;
          taken = types a ∙ ground arith;
          new = λ h. let was = ram a (omega arith) (omega arith) in absurd (ground arith);
          keeps = λ p h. types p ∙ ground arith;
          grows = mem_alloc-Grows s.mem mem page_size page_size 0 a v page-IsRequest e;
        })
      (mem_alloc-Ends s.mem page_size page_size 0 v page-IsRequest)

module _ (s : State) (t : IsTables s) (n : ℕ) (nl : n < 2048) where
  -- What `ensure_pt` gives for the `n`-th page directory entry.
  abbrev pub IsEnsured : ℕ × State → Type 0
  IsEnsured (pt, s') =
      IsTables s'
      × (has_pt s' n ≡ true)
      × (pt ≡ pt_of (pde_at s' n))
      × IsKept s s'
      × ((u : ℕ) → u < 2 ^ 20 → leaf s' u ≡ leaf s u)

  module _ (no_pt : has_pt s n ≡ false) (a : ℕ) (mem : Mem.State) (page : IsNewPage s a mem) where
    -- The state with the new table.
    abbrev ensured : State
    ensured =
        set_entry (set_table (record s { mem = mem }) a (new_row (pde_at s n) (s.table a)))
          (pd_of s (n / 512)) (n % 512) (table_entry a)

    ensured-pd_of : (i : ℕ) → pd_of ensured i ≡ pd_of s i
    unfolding pd_of
    ensured-pd_of i = refl

    pd_of-ne : (i : ℕ) → i < 4 → (pd_of s i == a) ≡ false
    pd_of-ne i il = elim (Bool-cases (pd_of s i == a)) [
      | inl e ↦
          let same : pd_of s i ≡ a = ground arith in
          absurd (page.new (subst (IsTaken s) same (t.pd_taken i il)))
      | inr e ↦ e
    ]

    pt_of-ne : (m : ℕ) → m < 2048 → has_pt s m ≡ true → (pt_of (pde_at s m) == a) ≡ false
    pt_of-ne m ml h = elim (Bool-cases (pt_of (pde_at s m) == a)) [
      | inl e ↦
          let same : pt_of (pde_at s m) ≡ a = ground arith in
          absurd (page.new (subst (IsTaken s) same (t.pt_taken m ml h)))
      | inr e ↦ e
    ]

    ensured-pde_at :
        (m : ℕ) → m < 2048 → pde_at ensured m ≡ (if m == n then table_entry a else pde_at s m)
    ensured-pde_at m ml = rw (ensured-pd_of (m / 512)) (elim (Bool-cases (m == n)) [
      | inl e ↦
          let same : m ≡ n = ground arith in
          let here : ((pd_of s (m / 512) == pd_of s (n / 512)) && (m % 512 == n % 512)) ≡ true =
            rw same (ground arith) in
          rw (here, e) refl
      | inr e ↦
          let there : ((pd_of s (m / 512) == pd_of s (n / 512)) && (m % 512 == n % 512)) ≡ false =
            ground (arith, t.pd_ne (m / 512) (n / 512)) in
          rw (there, e, pd_of-ne (m / 512) (omega arith)) refl
    ])

    entry :
        ((table_entry a == 0) ≡ false)
        × (is_large (table_entry a) ≡ false)
        × (pt_of (table_entry a) ≡ a)
    entry =
        let law = table_entry_lem page.q page.in_word in
        subst
          (λ p.
            ((table_entry p == 0) ≡ false)
            × (is_large (table_entry p) ≡ false)
            × (pt_of (table_entry p) ≡ p))
          (sym page.by_pages) law

    ensured-at : pde_at ensured n ≡ table_entry a
    ensured-at = let e : (n == n) ≡ true = ground arith in ensured-pde_at n nl ∙ rw e refl

    ensured-has_pt : has_pt ensured n ≡ true
    ensured-has_pt =
        let e0 : (table_entry a != 0) ≡ true = ground (arith, entry.0) in
        rw (ensured-at, e0, entry.1) refl

    ensured-IsTables : IsTables ensured
    ensured-IsTables = IsTables-keep s ensured n a t page.valid ensured-pd_of page.keeps λ m ml g.
        elim (Bool-cases (m == n)) [
          | inl e ↦
              let same : m ≡ n = ground arith in
              inr (same, ap pt_of (ensured-pde_at m ml ∙ rw e refl) ∙ entry.2, page.taken, page.new)
          | inr e ↦
              let old : pde_at ensured m ≡ pde_at s m = ensured-pde_at m ml ∙ rw e refl in
              inl (rw old at g, ap pt_of old)
        ]

    row_lem :
        (k : ℕ)
        → k < 512
        → new_row (pde_at s n) (s.table a) k
          ≡ (if pde_at s n == 0 then 0 else u64 (small_of (pde_at s n) + k * page_size))
    unfolding new_row small_of
    row_lem k kl = elim (Bool-cases (pde_at s n == 0)) [
      | inl e ↦ let e' : (pde_at s n != 0) ≡ false = ground arith in rw (e, e') refl
      | inr e ↦
          let e' : (pde_at s n != 0) ≡ true = ground arith in
          let filled =
            fill_pt_lem 512 0 (small_of (pde_at s n)) k (s.table a)
              (omega (arith, bit_and-le (pde_at s n) (2 ^ 64 - 1 - 128))) in
          let in_row : (leb 0 k && ltb k (0 + 512)) ≡ true = ground arith in
          rw (e, e') (filled ∙ rw in_row (let z : k - 0 ≡ k = omega arith in rw z refl))
    ]

    ensured-leaf : (u : ℕ) → u < 2 ^ 20 → leaf ensured u ≡ leaf s u
    ensured-leaf u ul = elim (Bool-cases (u / 512 == n)) [
      | inl e ↦
          let at : u / 512 ≡ n = ground arith in
          let other : (a == pd_of s (n / 512)) ≡ false =
            ground (arith, pd_of-ne (n / 512) (omega arith)) in
          let hit : (a == a) ≡ true = ground arith in
          let points : pt_of (pde_at ensured (u / 512)) ≡ a =
            ap (λ m. pt_of (pde_at ensured m)) at ∙ ap pt_of ensured-at ∙ entry.2 in
          leaf-pt ensured u (ap (has_pt ensured) at ∙ ensured-has_pt)
          ∙ ap (λ p. ensured.table p (u % 512)) points
          ∙ rw (other, hit) (row_lem (u % 512) (omega arith))
          ∙ sym (
              leaf-no_pt s u (ap (has_pt s) at ∙ no_pt)
              ∙ ap
                  (λ m.
                    if pde_at s m == 0
                    then 0
                    else u64 (small_of (pde_at s m) + u % 512 * page_size))
                  at)
      | inr e ↦ leaf-same s ensured u (ensured-pde_at (u / 512) (omega arith) ∙ rw e refl) λ g.
          let apart : (pt_of (pde_at s (u / 512)) == pd_of s (n / 512)) ≡ false =
            ground (arith, t.pt_pd (u / 512) (n / 512) (omega arith) (omega arith) g) in
          rw (apart, pt_of-ne (u / 512) (omega arith) g) refl
    ]

    ensured-IsEnsured : IsEnsured (a, ensured)
    ensured-IsEnsured = (
      ensured-IsTables,
      ensured-has_pt,
      sym (ap pt_of ensured-at ∙ entry.2),
      (ensured-pd_of, refl, page.grows),
      ensured-leaf,
    )

  -- `ensure_pt`, for one of the 2048 page directory entries of tables that are apart: it ends. If it
  -- returns, there is a table of small pages for its entry; the tables stay apart, and every page
  -- is mapped as before.
  pub ensure_pt_lem : Ends IsEnsured (ensure_pt s (pd_of s (n / 512)) (n % 512))
  unfolding ensure_pt
  ensure_pt_lem = elim (Bool-cases (has_pt s n)) [
    | inl old ↦ rw old (t, old, refl, (λ i. refl, refl, Grows-refl s.mem), λ u ul. refl)
    | inr new ↦ rw new (
        Ends-bind (IsPageFor s) IsEnsured (mem_alloc s.mem page_size page_size 0) _
          (mem_alloc-IsNewPage s t.valid) λ (a, mem) page. ensured-IsEnsured new a mem page)
  ]
