-- ===== src/Stage2/Vm/Unmap.antt =====
-- do_va_unmap of stage2/mem.c unmaps the pages of its range, except parts of large pages.
use biefircate.Prelude.{
  ℕ, zero, suc, ◌+◌, ◌-◌, ◌*◌, ◌/◌, ◌^◌, ◌%◌, ◌≤◌, ◌<◌, ◌≡◌, ◌⊎◌, inl, inr, refl, ap, sym, ◌∙◌,
  subst, true, false, ◌&&◌, arith, ltb, leb, ◌==◌, ◌!=◌, Bool-cases, lt-cases, ok,
}
use biefircate.Prelude.Words.{u32, sub_w}
use biefircate.Stage2.Vm.{
  State, large_page_size, is_large, pt_of, pd_of, set_entry, pdpti_of, pdi_of, pti_of, unmap_at,
  unmap_round, do_va_unmap,
}
use biefircate.Stage2.Vm.Tables.{
  pde_at, has_pt, leaf, IsTables, pd_of-set_entry, pde_at-set, leaf-no_pt,
}
use biefircate.Stage2.Vm.Keep.{
  set_pde-IsTables, set_pde-leaf, set_pte-IsTables, set_pte-leaf, set_pte-pde_at,
}
use biefircate.Stage2.Vm.Map.{pdpti_of_lem, pdi_of_lem, pti_of_lem}

-- The large page around the page `u` is not wholly among the `c` pages from `v` on.
abbrev pub IsPart : ℕ → ℕ → ℕ → Type 0
IsPart v c u = (u / 512 * 512 < v) ⊎ (v + c < u / 512 * 512 + 512)

-- The first `d` of the `c` pages from `v` on are dealt with: no page outside of these `d` changes. One of
-- them is not mapped any more, unless it lies in a large page that is not wholly among the `c`, and is
-- mapped as before; and no new large pages appear.
pub record AreFirstUnmapped (v c d : ℕ) (s s' : State) : Type 0 where
  pub tables : IsTables s'
  pub directories : (i : ℕ) → pd_of s' i ≡ pd_of s i
  pub ranges : s'.unused_va_ranges ≡ s.unused_va_ranges
  pub outside : (u : ℕ) → u < 2 ^ 20 → (leb v u && ltb u (v + d)) ≡ false → leaf s' u ≡ leaf s u
  pub inside :
      (u : ℕ)
      → u < 2 ^ 20
      → (leb v u && ltb u (v + d)) ≡ true
      → (leaf s' u ≡ 0)
        ⊎ ((is_large (pde_at s (u / 512)) ≡ true) × (leaf s' u ≡ leaf s u) × IsPart v c u)
  pub large : (n : ℕ) → n < 2048 → is_large (pde_at s' n) ≡ true → is_large (pde_at s n) ≡ true

abbrev pub IsUnmapped : ℕ → ℕ → State → State → Type 0
IsUnmapped v c s s' = AreFirstUnmapped v c c s s'

-- A large page that begins at the first page, with all its pages among the `c`, goes as a whole.
abbrev TakesWhole : ℕ → ℕ → ℕ → State → Type 0
TakesWhole v c d s = is_large (pde_at s (v / 512)) ≡ true → v % 512 ≡ 0 → 512 ≤ c → d ≡ 512

-- A page behind the first `d`, in a large page that is not wholly among the pages behind these.
IsPart-later :
    (v d c u : ℕ) (s : State)
    → 0 < d
    → (d ≡ 1) ⊎ (d ≡ 512)
    → (d ≡ 512 → v % 512 ≡ 0)
    → TakesWhole v c d s
    → d ≤ c
    → v + d ≤ u
    → is_large (pde_at s (u / 512)) ≡ true
    → IsPart (v + d) (c - d) u
    → IsPart v c u
IsPart-later v d c u s pos size aligned whole le after big (inr behind) =
    inr (omega (arith, behind, le))
IsPart-later v d c u s pos (inr d512) aligned whole le after big (inl before) =
    let at : v % 512 ≡ 0 = aligned d512 in inl (omega (arith, before, at, d512, after))
IsPart-later v d c u s pos (inl d1) aligned whole le after big (inl before) =
    elim (lt-cases (u / 512 * 512) v) [
      | inl lt ↦ inl lt
      | inr ge ↦
          let at : u / 512 * 512 ≡ v = omega (arith, before, ge, d1) in
          let same : u / 512 ≡ v / 512 = omega (arith, at) in
          let big' : is_large (pde_at s (v / 512)) ≡ true = rw same at big in
          elim (lt-cases c 512) [
            | inl short ↦ inr (omega (arith, short, at))
            | inr long ↦ absurd (omega (arith, whole big' (omega (arith, at)) long, d1))
          ]
    ]

IsUnmapped-append :
    (v d c : ℕ) (s s1 s2 : State)
    → d ≤ c
    → 0 < d
    → (d ≡ 1) ⊎ (d ≡ 512)
    → (d ≡ 512 → v % 512 ≡ 0)
    → TakesWhole v c d s
    → AreFirstUnmapped v c d s s1
    → IsUnmapped (v + d) (c - d) s1 s2
    → IsUnmapped v c s s2
IsUnmapped-append v d c s s1 s2 le pos size aligned takes a b = record {
  tables = b.tables;
  directories = λ i. b.directories i ∙ a.directories i;
  ranges = b.ranges ∙ a.ranges;
  outside = λ u ul h. b.outside u ul (ground arith) ∙ a.outside u ul (ground arith);
  inside = λ u ul h. elim (Bool-cases (leb v u && ltb u (v + d))) [
    | inl first ↦
        let kept = b.outside u ul (ground arith) in
        elim (a.inside u ul first) [
          | inl gone ↦ inl (kept ∙ gone)
          | inr (big, same, part) ↦ inr (big, kept ∙ same, part)
        ]
    | inr later ↦
        let kept = a.outside u ul later in
        elim (b.inside u ul (ground arith)) [
          | inl gone ↦ inl gone
          | inr (big, same, part) ↦
              let big_before = a.large (u / 512) (omega arith) big in
              let behind : v + d ≤ u = ground (arith, h, later) in
              inr (
                big_before,
                same ∙ kept,
                IsPart-later v d c u s pos size aligned takes le behind big_before part,
              )
        ]
  ];
  large = λ n nl h. a.large n nl (b.large n nl h);
}

IsUnmapped-none : (v : ℕ) (s : State) → IsTables s → IsUnmapped v 0 s s
IsUnmapped-none v s t = record {
  tables = t;
  directories = λ i. refl;
  ranges = refl;
  outside = λ u ul h. refl;
  inside = λ u ul h. absurd (ground arith);
  large = λ n nl h. h;
}

-- What a round does with `d` pages, which are one page or a whole large page.
abbrev IsRound : ℕ → ℕ → State → ℕ × State → Type 0
IsRound v c s (done, s') =
    (d : ℕ) × (done ≡ d * 4096)
    × (0 < d)
    × (d ≤ c)
    × AreFirstUnmapped v c d s s'
    × ((d ≡ 1) ⊎ (d ≡ 512))
    × (d ≡ 512 → v % 512 ≡ 0)
    × TakesWhole v c d s

module _ (s : State) (t : IsTables s) (v : ℕ) (vl : v < 2 ^ 20) where
  abbrev n : ℕ
  n = v / 512

  -- A whole large page.
  large_done :
      (c : ℕ)
      → v % 512 ≡ 0
      → AreFirstUnmapped v c 512 s (set_entry s (pd_of s (n / 512)) (n % 512) 0)
  unfolding is_large
  large_done c aligned =
      let law = λ (u : ℕ) (ul : u < 2 ^ 20). set_pde-leaf s t n (omega arith) 0 u ul refl in
      record {
        tables = set_pde-IsTables s t n (omega arith) 0 refl;
        directories = pd_of-set_entry s _ _ 0;
        ranges = refl;
        outside = λ u ul h. law u ul ∙ ground arith;
        inside = λ u ul h. inl (law u ul ∙ ground arith);
        large = λ m ml h. elim (Bool-cases (m == n)) [
          | inl e ↦ absurd (let bad = rw (pde_at-set s n m 0 t (omega arith) ml, e) at h in cc)
          | inr e ↦ rw (pde_at-set s n m 0 t (omega arith) ml, e) at h
        ];
      }

  -- A part of a large page, and a page that is not mapped.
  part_done :
      (c : ℕ)
      → (leaf s v ≡ 0) ⊎ ((is_large (pde_at s (v / 512)) ≡ true) × IsPart v c v)
      → AreFirstUnmapped v c 1 s s
  part_done c why = record {
    tables = t;
    directories = λ i. refl;
    ranges = refl;
    outside = λ u ul h. refl;
    inside = λ u ul h.
        let e : u ≡ v = ground arith in
        rw e (elim why [ inl gone ↦ inl gone | inr (big, part) ↦ inr (big, refl, part) ]);
    large = λ m ml h. h;
  }

  -- A small page.
  small_done :
      (c : ℕ) (there : has_pt s n ≡ true)
      → AreFirstUnmapped v c 1 s (set_entry s (pt_of (pde_at s n)) (v % 512) 0)
  small_done c there =
      let law = λ (u : ℕ) (ul : u < 2 ^ 20).
        set_pte-leaf s t n (omega arith) there (v % 512) 0 u (omega arith) ul in
      record {
        tables = set_pte-IsTables s t n (omega arith) there (v % 512) 0;
        directories = pd_of-set_entry s _ _ 0;
        ranges = refl;
        outside = λ u ul h. law u ul ∙ ground arith;
        inside = λ u ul h. inl (law u ul ∙ ground arith);
        large = λ m ml h. rw (set_pte-pde_at s t n (omega arith) there (v % 512) 0 m ml) at h;
      }

  unmap_at-IsRound :
      (c : ℕ)
      → 0 < c
      → IsRound v c s (unmap_at (pd_of s (n / 512)) (n % 512) (v % 512) (v * 4096) (c * 4096) s)
  unfolding unmap_at
  unmap_at-IsRound c pos = elim (Bool-cases (is_large (pde_at s n))) [
    | inl big ↦
        elim (Bool-cases ((v * 4096 % large_page_size == 0) && leb large_page_size (c * 4096))) [
          | inl whole ↦
              let aligned : v % 512 ≡ 0 = ground (arith, whole) in
              rw (big, whole)
                (
                  512,
                  refl,
                  omega arith,
                  ground (arith, whole),
                  large_done c aligned,
                  inr refl,
                  λ e. aligned,
                  λ h a l. refl,
                )
          | inr part ↦
              let not_whole : IsPart v c v = elim (Bool-cases (v % 512 == 0)) [
                | inr a ↦ inl (ground (arith, a))
                | inl a ↦
                    let at : v % 512 ≡ 0 = ground (arith, a) in
                    elim (lt-cases c 512) [
                      | inl short ↦ inr (omega (arith, short, at))
                      | inr long ↦ absurd (ground (arith, part, long, at))
                    ]
              ] in
              rw (big, part)
                (
                  1,
                  refl,
                  omega arith,
                  omega arith,
                  part_done c (inr (big, not_whole)),
                  inl refl,
                  λ e. absurd (omega (arith, e)),
                  λ h a l. absurd (ground (arith, part, a, l)),
                )
        ]
    | inr small ↦ elim (Bool-cases (pde_at s n != 0)) [
      | inl there ↦
          let has : has_pt s n ≡ true = rw (there, small) refl in
          rw (small, there)
            (
              1,
              refl,
              omega arith,
              omega arith,
              small_done c has,
              inl refl,
              λ e. absurd (omega (arith, e)),
              λ h a l. absurd (let bad = h in cc),
            )
      | inr gone ↦
          let z : (pde_at s n == 0) ≡ true = ground arith in
          let no : has_pt s n ≡ false = rw gone refl in
          rw (small, gone)
            (
              1,
              refl,
              omega arith,
              omega arith,
              part_done c (inl (leaf-no_pt s v no ∙ rw z refl)),
              inl refl,
              λ e. absurd (omega (arith, e)),
              λ h a l. absurd (let bad = h in cc),
            )
    ]
  ]

  unmap_round-IsRound : (c : ℕ) → 0 < c → IsRound v c s (unmap_round (v * 4096) (c * 4096) s)
  unmap_round-IsRound c pos =
      let go = λ (i k q : ℕ). unmap_at (pd_of s i) k q (v * 4096) (c * 4096) s in
      let same : go (pdpti_of (v * 4096)) (pdi_of (v * 4096)) (pti_of (v * 4096))
          ≡ go (n / 512) (n % 512) (v % 512) =
        ap (λ (i : ℕ). go i (pdi_of (v * 4096)) (pti_of (v * 4096))) (pdpti_of_lem v)
        ∙ ap (λ (k : ℕ). go (n / 512) k (pti_of (v * 4096))) (pdi_of_lem v)
        ∙ ap (λ (q : ℕ). go (n / 512) (n % 512) q) (pti_of_lem v) in
      subst (IsRound v c s) (sym same) (unmap_at-IsRound c pos)

do_va_unmap_from :
    (rounds vstart len v c : ℕ) (s : State)
    → IsTables s
    → v + c ≤ 2 ^ 20
    → c ≤ rounds
    → len ≡ c * 4096
    → (0 < c → vstart ≡ v * 4096)
    → (s' : State) × (do_va_unmap rounds vstart len s ≡ ok s') × IsUnmapped v c s s'
unfolding do_va_unmap
do_va_unmap_from zero vstart len v c s t room enough lc vc =
    let z : c ≡ 0 = omega arith in
    let over : (len == 0) ≡ true = ground arith in (s, rw over refl, rw z (IsUnmapped-none v s t))
do_va_unmap_from (suc rounds) vstart len v c s t room enough lc vc = elim (Bool-cases (len == 0)) [
  | inl over ↦ let z : c ≡ 0 = ground arith in (s, rw over refl, rw z (IsUnmapped-none v s t))
  | inr more ↦
      let pos : 0 < c = ground arith in
      let at : vstart ≡ v * 4096 = vc pos in
      let round : IsRound v c s (unmap_round vstart len s) =
        rw (at, lc) (unmap_round-IsRound s t v (omega arith) c pos) in
      let r = unmap_round vstart len s in
      let (d, size, some, le, unmapped, one_or, aligned, takes) = round in
      let (s2, done, rest) =
        do_va_unmap_from rounds (u32 (vstart + r.0)) (sub_w 32 len r.0) (v + d) (c - d) r.1
          unmapped.tables (omega arith) (omega arith) (omega arith) (λ left. omega arith) in
      (
        s2,
        rw more done,
        IsUnmapped-append v d c s r.1 s2 le some one_or aligned takes unmapped rest,
      )
]

-- `do_va_unmap` on whole pages that lie below 4 GiB returns within as many rounds as there are pages.
-- Afterwards none of these pages is mapped, except that one which was in a large page may be mapped as
-- before if some page of that large page is not among those to be unmapped; a large page all of whose
-- pages are is gone. Every other page is mapped as before, and no new large pages appear.
pub do_va_unmap_lem :
    (rounds v c : ℕ) (s : State)
    → IsTables s
    → v + c ≤ 2 ^ 20
    → c ≤ rounds
    → (s' : State) × (do_va_unmap rounds (v * 4096) (c * 4096) s ≡ ok s') × IsUnmapped v c s s'
do_va_unmap_lem rounds v c s t room enough =
    do_va_unmap_from rounds (v * 4096) (c * 4096) v c s t room enough refl (λ h. refl)
