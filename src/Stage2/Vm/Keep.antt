-- ===== src/Stage2/Vm/Keep.antt =====
-- What keeps the page tables of stage2/mem.c apart when entries are written.
use biefircate.Prelude.{
  ℕ, ◌+◌, ◌*◌, ◌/◌, ◌^◌, ◌%◌, ◌<◌, ◌≡◌, ◌≢◌, ◌⊎◌, inl, inr, refl, ap, sym, ◌∙◌, subst, true, false,
  not, ◌&&◌, arith, ◌==◌, ◌!=◌, if◌then◌else◌, Bool-cases,
}
use biefircate.Prelude.Words.{u64}
use biefircate.Stage2.Mem.Alloc.{IsValid}
use biefircate.Stage2.Vm.{State, page_size, is_large, pt_of, pd_of, set_entry, small_of}
use biefircate.Stage2.Vm.Tables.{
  pde_at, has_pt, leaf, IsTaken, IsTables, pd_of-set_entry, pde_at-set, leaf-pt, leaf-no_pt,
  leaf-same,
}

-- A table of `s'` is one of `s`, or a page `a` that is new.
abbrev pub IsOldOrNew : State → State → ℕ → ℕ → ℕ → Type 0
IsOldOrNew s s' n a m =
    ((has_pt s m ≡ true) × (pt_of (pde_at s' m) ≡ pt_of (pde_at s m)))
    ⊎ ((m ≡ n) × (pt_of (pde_at s' m) ≡ a) × IsTaken s' a × ¬ (IsTaken s a))

pub IsTables-keep :
    (s s' : State) (n a : ℕ)
    → IsTables s
    → IsValid s'.mem
    → ((i : ℕ) → pd_of s' i ≡ pd_of s i)
    → ((p : ℕ) → IsTaken s p → IsTaken s' p)
    → ((m : ℕ) → m < 2048 → has_pt s' m ≡ true → IsOldOrNew s s' n a m)
    → IsTables s'
IsTables-keep s s' n a t v pds keeps tables = record {
  valid = v;
  pd_taken = λ i il. subst (IsTaken s') (sym (pds i)) (keeps (pd_of s i) (t.pd_taken i il));
  pd_ne = λ i j il jl ne e. t.pd_ne i j il jl ne (sym (pds i) ∙ e ∙ pds j);
  pt_taken = λ m ml h. elim (tables m ml h) [
    | inl (old, e) ↦ subst (IsTaken s') (sym e) (keeps _ (t.pt_taken m ml old))
    | inr (at, e, taken, new) ↦ subst (IsTaken s') (sym e) taken
  ];
  pt_pd = λ m i ml il h e. elim (tables m ml h) [
    | inl (old, g) ↦ t.pt_pd m i ml il old (sym g ∙ e ∙ pds i)
    | inr (at, g, taken, new) ↦ new (subst (IsTaken s) (sym (pds i) ∙ sym e ∙ g) (t.pd_taken i il))
  ];
  pt_ne = λ m k ml kl ne h g e. elim (tables m ml h) [
    | inl (old, p) ↦ elim (tables k kl g) [
      | inl (old', q) ↦ t.pt_ne m k ml kl ne old old' (sym p ∙ e ∙ q)
      | inr (at, q, taken, new) ↦ new (subst (IsTaken s) (sym p ∙ e ∙ q) (t.pt_taken m ml old))
    ]
    | inr (at, p, taken, new) ↦ elim (tables k kl g) [
      | inl (old, q) ↦ new (subst (IsTaken s) (sym q ∙ sym e ∙ p) (t.pt_taken k kl old))
      | inr (at', q, taken', new') ↦ ne (at ∙ sym at')
    ]
  ];
}

-- An entry that points to no table.
abbrev pub IsLeafEntry : ℕ → Type 0
IsLeafEntry v = ((v != 0) && not (is_large v)) ≡ false

module _ (s : State) (t : IsTables s) (n : ℕ) (nl : n < 2048) where
  abbrev pub set_pde : ℕ → State
  set_pde v = set_entry s (pd_of s (n / 512)) (n % 512) v

  -- Writing a page directory entry that points to no table.
  pub set_pde-IsTables : (v : ℕ) → IsLeafEntry v → IsTables (set_pde v)
  set_pde-IsTables v h =
      IsTables-keep s (set_pde v) 0 0 t t.valid (pd_of-set_entry s _ _ v) (λ p taken. taken)
        λ m ml g. elim (Bool-cases (m == n)) [
          | inl e ↦ absurd (let e' = rw (pde_at-set s n m v t nl ml, e) at g in cc)
          | inr e ↦
              inl (rw (pde_at-set s n m v t nl ml, e) at g, rw (pde_at-set s n m v t nl ml, e) refl)
        ]

  -- How the pages are mapped after it.
  pub set_pde-leaf :
      (v u : ℕ)
      → u < 2 ^ 20
      → IsLeafEntry v
      → leaf (set_pde v) u ≡ (
          if u / 512 == n
          then (if v == 0 then 0 else u64 (small_of v + u % 512 * page_size))
          else leaf s u)
  set_pde-leaf v u ul h =
      let at = pde_at-set s n (u / 512) v t nl (omega arith) in
      elim (Bool-cases (u / 512 == n)) [
        | inl e ↦
            let now : pde_at (set_pde v) (u / 512) ≡ v = rw e at at in
            let none_there : has_pt (set_pde v) (u / 512) ≡ false = rw now h in
            rw e (
              leaf-no_pt (set_pde v) u none_there
              ∙ ap (λ p. if p == 0 then 0 else u64 (small_of p + u % 512 * page_size)) now)
        | inr e ↦ rw e (
            leaf-same s (set_pde v) u (rw e at at) λ g.
              let apart : (pt_of (pde_at s (u / 512)) == pd_of s (n / 512)) ≡ false =
                ground (arith, t.pt_pd (u / 512) (n / 512) (omega arith) (omega arith) g) in
              rw apart refl)
      ]

  -- Writing an entry of a table of small pages.
  module _ (there : has_pt s n ≡ true) where
    abbrev pub set_pte : ℕ → ℕ → State
    set_pte k v = set_entry s (pt_of (pde_at s n)) k v

    pub set_pte-pde_at : (k v m : ℕ) → m < 2048 → pde_at (set_pte k v) m ≡ pde_at s m
    set_pte-pde_at k v m ml =
        let apart : (pd_of s (m / 512) == pt_of (pde_at s n)) ≡ false = ground (
          arith,
          λ (e : pt_of (pde_at s n) ≡ pd_of s (m / 512)).
              t.pt_pd n (m / 512) nl (omega arith) there e,
        ) in
        rw (pd_of-set_entry s (pt_of (pde_at s n)) k v (m / 512), apart) refl

    pub set_pte-IsTables : (k v : ℕ) → IsTables (set_pte k v)
    set_pte-IsTables k v =
        IsTables-keep s (set_pte k v) 0 0 t t.valid (pd_of-set_entry s _ k v) (λ p taken. taken)
          λ m ml g. inl (rw (set_pte-pde_at k v m ml) at g, ap pt_of (set_pte-pde_at k v m ml))

    pub set_pte-leaf :
        (k v u : ℕ)
        → k < 512
        → u < 2 ^ 20
        → leaf (set_pte k v) u ≡ (if u == n * 512 + k then v else leaf s u)
    set_pte-leaf k v u kl ul =
        let same = set_pte-pde_at k v (u / 512) (omega arith) in
        elim (Bool-cases (u == n * 512 + k)) [
          | inl e ↦
              let at : u / 512 ≡ n = ground arith in
              let idx : u % 512 ≡ k = ground arith in
              let now : has_pt (set_pte k v) (u / 512) ≡ true = rw (same, at) there in
              let hit : ((pt_of (pde_at s n) == pt_of (pde_at s n)) && (k == k)) ≡ true =
                ground arith in
              rw e (leaf-pt (set_pte k v) u now ∙ rw (same, at, idx, hit) refl)
          | inr e ↦ rw e (
              leaf-same s (set_pte k v) u same λ g.
                let apart : ((pt_of (pde_at s (u / 512)) == pt_of (pde_at s n)) && (u % 512 == k))
                    ≡ false =
                  ground
                    (arith, λ (d : u / 512 ≢ n). t.pt_ne (u / 512) n (omega arith) nl d g there) in
                rw apart refl)
        ]
