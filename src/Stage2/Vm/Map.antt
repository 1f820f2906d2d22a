-- ===== src/Stage2/Vm/Map.antt =====
-- do_va_map of stage2/mem.c maps the pages of its range, and no others.
use biefircate.Prelude.{
  ℕ, zero, suc, ◌+◌, ◌-◌, ◌*◌, ◌/◌, ◌^◌, ◌%◌, ◌≤◌, ◌<◌, ◌≡◌, inl, inr, refl, ap, sym, ◌∙◌, subst,
  true, false, ◌&&◌, arith, ltb, leb, ◌==◌, if◌then◌else◌, Bool-cases, ◌>>=◌, Ends, Ends-bind,
  Ends-imp,
}
use biefircate.Prelude.Words.{u32, u64, sub_w, bit_and_low}
use biefircate.Stage2.Vm.{
  State, page_size, large_page_size, is_large, pd_of, set_entry, pdpti_of, pdi_of, pti_of,
  small_entry, large_entry, takes_large, ensure_pt, do_va_map,
}
use biefircate.Stage2.Vm.Entries.{
  attr, attr-lt, small_entry_lem, large_entry-is_large, small_of-large_entry,
}
use biefircate.Stage2.Vm.Tables.{leaf, IsKept, IsTables, pd_of-set_entry}
use biefircate.Stage2.Vm.Keep.{
  IsLeafEntry, set_pde-IsTables, set_pde-leaf, set_pte-IsTables, set_pte-leaf,
}
use biefircate.Stage2.Mem.Grows.{Grows-refl, Grows-trans}
use biefircate.Stage2.Vm.Ensure.{IsEnsured, ensure_pt_lem}

-- The indices of a page's entries.
pub pdpti_of_lem : (v : ℕ) → pdpti_of (v * 4096) ≡ v / 512 / 512
pdpti_of_lem v = omega arith

pub pdi_of_lem : (v : ℕ) → pdi_of (v * 4096) ≡ v / 512 % 512
pdi_of_lem v = bit_and_low 9 (v * 4096 / 2 ^ 21) ∙ omega arith

pub pti_of_lem : (v : ℕ) → pti_of (v * 4096) ≡ v % 512
pti_of_lem v = bit_and_low 9 (v * 4096 / 2 ^ 12) ∙ omega arith

-- The pages from `v` on for `c` are mapped to the physical pages from `p` on, with the flags `f`, and
-- all others as before.
abbrev pub IsMapped : ℕ → ℕ → ℕ → ℕ → State → State → Type 0
IsMapped v p c f s s' =
    (u : ℕ)
    → u < 2 ^ 20
    → leaf s' u
      ≡ (if leb v u && ltb u (v + c) then (p + (u - v)) * page_size + attr f else leaf s u)

abbrev pub IsMapResult : ℕ → ℕ → ℕ → ℕ → State → State → Type 0
IsMapResult v p c f s s' = IsTables s' × IsKept s s' × IsMapped v p c f s s'

IsMapped-none : (v p f : ℕ) (s : State) → IsMapped v p 0 f s s
IsMapped-none v p f s u ul = ground arith

-- A first part, and then the rest.
IsMapped-append :
    (v p d c f : ℕ) (s s1 s2 : State)
    → IsMapped v p d f s s1
    → IsMapped (v + d) (p + d) c f s1 s2
    → IsMapped v p (d + c) f s s2
IsMapped-append v p d c f s s1 s2 h g u ul = ground (arith, h u ul, g u ul)

module _ (s : State) (t : IsTables s) (v p f : ℕ) (vl : v < 2 ^ 20) (fl : f < 128) where
  -- One large page.
  abbrev large_state : State
  large_state = set_entry s (pd_of s (v / 512 / 512)) (v / 512 % 512) (large_entry (p * 4096) f)

  large-IsLeafEntry : IsLeafEntry (large_entry (p * 4096) f)
  large-IsLeafEntry = let e = large_entry-is_large p f fl in ground arith

  large_nonzero : (large_entry (p * 4096) f == 0) ≡ false
  unfolding is_large
  large_nonzero = elim (Bool-cases (large_entry (p * 4096) f == 0)) [
    | inl e ↦
        let z : large_entry (p * 4096) f ≡ 0 = ground arith in
        absurd (let bad = sym (ap is_large z) ∙ large_entry-is_large p f fl in cc)
    | inr e ↦ e
  ]

  large-IsMapped :
      v % 512 ≡ 0 → p + 512 < 2 ^ 52 → IsTables large_state × IsMapped v p 512 f s large_state
  large-IsMapped aligned small = (
    set_pde-IsTables s t (v / 512) (omega arith) (large_entry (p * 4096) f) large-IsLeafEntry,
    λ u ul.
        let law =
          set_pde-leaf s t (v / 512) (omega arith) (large_entry (p * 4096) f) u ul
            large-IsLeafEntry in
        let bits = small_of-large_entry p f (omega arith) fl in
        let low = attr-lt f fl in law ∙ rw (large_nonzero, bits) (ground arith),
  )

  -- One small page.
  small-IsMapped :
      (pt : ℕ) (s1 : State)
      → p < 2 ^ 52
      → IsEnsured s t (v / 512) (omega arith) (pt, s1)
      → let s2 = set_entry s1 pt (v % 512) (small_entry (p * 4096) f) in
        IsTables s2 × IsKept s s2 × IsMapped v p 1 f s s2
  small-IsMapped pt s1 small (t1, there, at, pds, same) =
      rw (at, small_entry_lem p f fl)
        (
          set_pte-IsTables s1 t1 (v / 512) (omega arith) there (v % 512) (p * 4096 + attr f),
          (λ i. pd_of-set_entry s1 _ _ _ i ∙ pds.0 i, pds.1, pds.2),
          λ u ul.
              let law =
                set_pte-leaf s1 t1 (v / 512) (omega arith) there (v % 512) (p * 4096 + attr f) u
                  (omega arith) ul in
              law ∙ ground (arith, same u ul),
        )

-- One round of the loop, where it takes a large page and where it takes a small one.
module _ (rounds vstart pstart len f : ℕ) (s : State) (more : (len == 0) ≡ false) where
  abbrev entry_of : ℕ
  entry_of = s.table (pd_of s (pdpti_of vstart)) (pdi_of vstart)

  do_va_map-large :
      takes_large vstart pstart len entry_of ≡ true
      → do_va_map (suc rounds) vstart pstart len f s
        ≡ do_va_map rounds
            (u32 (vstart + large_page_size))
            (u64 (pstart + large_page_size))
            (len - large_page_size)
            f
            (set_entry s (pd_of s (pdpti_of vstart)) (pdi_of vstart) (large_entry pstart f))
  unfolding do_va_map
  do_va_map-large big = rw (more, big, do_va_map) refl

  do_va_map-small :
      takes_large vstart pstart len entry_of ≡ false
      → do_va_map (suc rounds) vstart pstart len f s ≡ (
          ensure_pt s (pd_of s (pdpti_of vstart)) (pdi_of vstart) >>= λ (pt, s').
          do_va_map rounds
            (u32 (vstart + page_size))
            (u64 (pstart + page_size))
            (sub_w 32 len page_size)
            f
            (set_entry s' pt (pti_of vstart) (small_entry pstart f)))
  unfolding do_va_map
  do_va_map-small small = rw (more, small, do_va_map) refl

takes_large_lem :
    (v p c pde : ℕ)
    → takes_large (v * 4096) (p * 4096) (c * 4096) pde ≡ true
    → (v % 512 ≡ 0) × (p % 512 ≡ 0) × (512 ≤ c)
unfolding takes_large
takes_large_lem v p c pde h = (ground arith, ground arith, ground arith)

abbrev IsRoom : ℕ → ℕ → ℕ → Type 0
IsRoom v p c = (v + c ≤ 2 ^ 20) × (p + c < 2 ^ 52)

IsMapResult-append :
    (v p d c f : ℕ) (s s1 s2 : State)
    → d ≤ c
    → IsKept s s1
    → IsMapped v p d f s s1
    → IsMapResult (v + d) (p + d) (c - d) f s1 s2
    → IsMapResult v p c f s s2
IsMapResult-append v p d c f s s1 s2 le pds h (t, pds', g) =
    let e : d + (c - d) ≡ c = omega arith in
    (
      t,
      (λ i. pds'.0 i ∙ pds.0 i, pds'.1 ∙ pds.1, Grows-trans s.mem s1.mem s2.mem pds.2 pds'.2),
      subst (λ n. IsMapped v p n f s s2) e (IsMapped-append v p d (c - d) f s s1 s2 h g),
    )

-- `do_va_map` on whole pages, with the address of the first one where there are pages left.
do_va_map_from :
    (rounds vstart pstart len v p c f : ℕ) (s : State)
    → IsTables s
    → f < 128
    → IsRoom v p c
    → c ≤ rounds
    → len ≡ c * 4096
    → (0 < c → vstart ≡ v * 4096)
    → pstart ≡ p * 4096
    → Ends (IsMapResult v p c f s) (do_va_map rounds vstart pstart len f s)
unfolding do_va_map
do_va_map_from zero vstart pstart len v p c f s t fl room enough lc vc pc =
    let z : c ≡ 0 = omega arith in
    let over : (len == 0) ≡ true = ground arith in
    rw (over, z) (t, (λ i. refl, refl, Grows-refl s.mem), IsMapped-none v p f s)
do_va_map_from (suc rounds) vstart pstart len v p c f s t fl room enough lc vc pc =
    elim (Bool-cases (len == 0)) [
      | inl over ↦
          let z : c ≡ 0 = ground arith in
          rw (over, z, do_va_map) (t, (λ i. refl, refl, Grows-refl s.mem), IsMapped-none v p f s)
      | inr more ↦
          let pos : 0 < c = ground arith in
          let at : vstart ≡ v * 4096 = vc pos in
          let ix : pdpti_of vstart ≡ v / 512 / 512 = ap pdpti_of at ∙ pdpti_of_lem v in
          let ix' : pdi_of vstart ≡ v / 512 % 512 = ap pdi_of at ∙ pdi_of_lem v in
          let ix'' : pti_of vstart ≡ v % 512 = ap pti_of at ∙ pti_of_lem v in
          elim (Bool-cases
            (takes_large vstart pstart len (entry_of rounds vstart pstart len f s more))) [
              | inl big ↦
                  let (whole, whole', many) = takes_large_lem v p c _ (rw (at, pc, lc) at big) in
                  let same : set_entry s (pd_of s (pdpti_of vstart)) (pdi_of vstart)
                        (large_entry pstart f)
                      ≡ large_state s t v p f (omega arith) fl =
                    ap (λ (i : ℕ). set_entry s (pd_of s i) (pdi_of vstart) (large_entry pstart f))
                      ix
                    ∙ ap (λ (k : ℕ). set_entry s (pd_of s (v / 512 / 512)) k (large_entry pstart f))
                        ix'
                    ∙ ap
                        (λ (x : ℕ).
                          set_entry s (pd_of s (v / 512 / 512)) (v / 512 % 512) (large_entry x f))
                        pc in
                  let (t1, mapped) =
                    large-IsMapped s t v p f (omega arith) fl whole (omega arith) in
                  let s1 = large_state s t v p f (omega arith) fl in
                  let rest =
                    do_va_map_from rounds (u32 (vstart + large_page_size))
                      (u64 (pstart + large_page_size)) (len - large_page_size) (v + 512) (p + 512)
                      (c - 512) f s1 t1 fl (omega arith, omega arith) (omega arith) (omega arith)
                      (λ left. omega arith) (omega arith) in
                  rw (do_va_map-large rounds vstart pstart len f s more big) (
                    subst
                      (λ st. Ends (IsMapResult v p c f s) (
                        do_va_map rounds (u32 (vstart + large_page_size))
                          (u64 (pstart + large_page_size)) (len - large_page_size) f st))
                      (sym same)
                      (Ends-imp (IsMapResult (v + 512) (p + 512) (c - 512) f s1)
                        (IsMapResult v p c f s) _
                        (λ s2.
                          IsMapResult-append v p 512 c f s s1 s2 many
                            (pd_of-set_entry s _ _ _, refl, Grows-refl s.mem) mapped)
                        rest))
              | inr small ↦
                  let go = λ (i k q x : ℕ). ensure_pt s (pd_of s i) k >>= λ (pt, s').
                  do_va_map rounds (u32 (vstart + page_size)) (u64 (pstart + page_size))
                    (sub_w 32 len page_size) f (set_entry s' pt q (small_entry x f)) in
                  let same : go (pdpti_of vstart) (pdi_of vstart) (pti_of vstart) pstart
                      ≡ go (v / 512 / 512) (v / 512 % 512) (v % 512) (p * 4096) =
                    ap (λ (i : ℕ). go i (pdi_of vstart) (pti_of vstart) pstart) ix
                    ∙ ap (λ (k : ℕ). go (v / 512 / 512) k (pti_of vstart) pstart) ix'
                    ∙ ap (λ (q : ℕ). go (v / 512 / 512) (v / 512 % 512) q pstart) ix''
                    ∙ ap (λ (x : ℕ). go (v / 512 / 512) (v / 512 % 512) (v % 512) x) pc in
                  rw (do_va_map-small rounds vstart pstart len f s more small) (
                    subst (Ends (IsMapResult v p c f s)) (sym same) (
                      Ends-bind (IsEnsured s t (v / 512) (omega arith)) (IsMapResult v p c f s)
                        (ensure_pt s (pd_of s (v / 512 / 512)) (v / 512 % 512)) _
                        (ensure_pt_lem s t (v / 512) (omega arith))
                        λ (pt, s1) ensured.
                          let (t2, pds, mapped) =
                            small-IsMapped s t v p f (omega arith) fl pt s1 (omega arith) ensured in
                          let s2 = set_entry s1 pt (v % 512) (small_entry (p * 4096) f) in
                          Ends-imp (IsMapResult (v + 1) (p + 1) (c - 1) f s2)
                            (IsMapResult v p c f s) _
                            (λ s3. IsMapResult-append v p 1 c f s s2 s3 (omega arith) pds mapped)
                            (do_va_map_from rounds (u32 (vstart + page_size))
                              (u64 (pstart + page_size)) (sub_w 32 len page_size) (v + 1) (p + 1)
                              (c - 1) f s2 t2 fl (omega arith, omega arith) (omega arith)
                              (omega arith) (λ left. omega arith) (omega arith))))
            ]
    ]

-- `do_va_map` on whole pages that lie below 4 GiB, with the physical pages below 2 ^ 52 pages and
-- flags below the one for large pages: it ends within as many rounds as there are pages; if it
-- returns, the `c` pages from `v` on are mapped to the physical pages from `p` on with these flags,
-- every other page is mapped as before, and the tables are still apart.
pub do_va_map_lem :
    (rounds v p c f : ℕ) (s : State)
    → IsTables s
    → f < 128
    → v + c ≤ 2 ^ 20
    → p + c < 2 ^ 52
    → c ≤ rounds
    → Ends (IsMapResult v p c f s) (do_va_map rounds (v * 4096) (p * 4096) (c * 4096) f s)
do_va_map_lem rounds v p c f s t fl vc pc enough =
    do_va_map_from rounds (v * 4096) (p * 4096) (c * 4096) v p c f s t fl (vc, pc) enough refl
      (λ h. refl) refl
