-- ===== src/Stage1/Bmem/Init/Blocks.antt =====
-- bmem_init of stage1/bmem.c makes blocks of the pages that it has.
use biefircate.Prelude.{
  ℕ, zero, suc, ◌+◌, ◌*◌, ◌/◌, ◌≤◌, ◌<◌, ◌≡◌, ◌⊎◌, inl, inr, refl, ap, Bool, true, false, ◌&&◌,
  ◌||◌, List, arith, ltb, leb, ◌==◌, ◌!=◌, if◌then◌else◌, Bool-cases, length,
}
use biefircate.Prelude.Words.{u32}
use biefircate.Stage1.Bmem.{Blk, page_size, bmem_max_addr}
use biefircate.Stage1.Bmem.Layout.{IsLaidOut, IsFree}
use biefircate.Stage1.Bmem.Init.{num_pages, group}

-- The block that is open before page `idx`, if any, and the available pages from there on.
abbrev to_come : (ℕ → Bool) → ℕ → ℕ → ℕ → Bool
to_come avail idx start x =
    ((start != bmem_max_addr) && (leb start x && ltb x (idx * page_size)))
    || (leb (idx * page_size) x && (ltb x (num_pages * page_size) && avail (x / page_size)))

abbrev IsOpen : ℕ → ℕ → ℕ → Type 0
IsOpen lo idx start =
    ((start ≡ bmem_max_addr) × (lo ≤ idx * 4096)) ⊎ ((start < idx * 4096) × (lo ≤ start))

-- The loop fills at most every second place of the array.
group-length :
    (avail : ℕ → Bool) (left idx start : ℕ)
    → 2 * length (group avail left idx start) ≤ left + (if start == bmem_max_addr then 1 else 2)
unfolding group
group-length avail zero idx start = ground arith
group-length avail (suc left) idx start =
    let rest = group-length avail left (idx + 1) (
      if avail idx
      then (if start == bmem_max_addr then u32 (idx * page_size) else start)
      else bmem_max_addr) in
    ground (arith, rest)

-- Page `idx` moves from the pages to come into the block that is open.
module _ (avail : ℕ → Bool) (idx start x : ℕ) (il : idx < num_pages) where
  here_or_not :
      (leb (idx * 4096) x && ltb x ((idx + 1) * 4096)) ≡ true → avail (x / 4096) ≡ avail idx
  here_or_not h = let e : x / 4096 ≡ idx = ground arith in ap avail e

  to_come-opens :
      avail idx ≡ true
      → start ≡ bmem_max_addr
      → to_come avail (idx + 1) (idx * 4096) x ≡ to_come avail idx start x
  to_come-opens has closed = ground (arith, here_or_not)

  to_come-grows :
      avail idx ≡ true
      → start < idx * 4096
      → to_come avail (idx + 1) start x ≡ to_come avail idx start x
  to_come-grows has low = ground (arith, here_or_not)

  to_come-skips :
      avail idx ≡ false
      → to_come avail (idx + 1) bmem_max_addr x
        ≡ (leb (idx * page_size) x && (ltb x (num_pages * page_size) && avail (x / page_size)))
  to_come-skips lacks = ground (arith, here_or_not)

abbrev IsGrouped : (ℕ → Bool) → ℕ → ℕ → ℕ → List Blk → Type 0
IsGrouped avail idx start lo blks =
    IsLaidOut lo blks
    × ((x : ℕ)
        → (IsFree x blks → to_come avail idx start x ≡ true)
          × (to_come avail idx start x ≡ true → IsFree x blks))

group_from :
    (avail : ℕ → Bool) (left idx start lo : ℕ)
    → left + idx ≡ num_pages
    → IsOpen lo idx start
    → IsGrouped avail idx start lo (group avail left idx start)
unfolding group
group_from avail zero idx start lo sum (inl (closed, low)) =
    let z : (start != bmem_max_addr) ≡ false = ground arith in
    rw z (omega arith, λ x. (λ f. absurd f, λ h. absurd (ground arith)))
group_from avail zero idx start lo sum (inr (below, low)) =
    let z : (start != bmem_max_addr) ≡ true = ground arith in
    let whole : u32 (u32 (idx * 4096)) ≡ idx * 4096 = omega arith in
    let from : u32 start ≡ start = omega arith in
    rw (z, whole, from)
      (
        (low, omega arith, omega arith, omega arith),
        λ x. (
          λ f. elim f [ inl here ↦ ground arith | inr none ↦ absurd none ],
          λ h. inl (ground arith, ground arith),
        ),
      )
group_from avail (suc left) idx start lo sum (inl (closed, low)) = elim (Bool-cases (avail idx)) [
  | inl has ↦
      let z : (start == bmem_max_addr) ≡ true = ground arith in
      let whole : u32 (idx * 4096) ≡ idx * 4096 = omega arith in
      let (out, free) =
        group_from avail left (idx + 1) (idx * 4096) lo (omega arith) (inr (omega arith, low)) in
      rw (z, has, whole)
        (out, λ x. rw (← to_come-opens avail idx start x (omega arith) has closed) (free x))
  | inr lacks ↦
      let z : (start != bmem_max_addr) ≡ false = ground arith in
      let (out, free) =
        group_from avail left (idx + 1) bmem_max_addr lo (omega arith) (inl (refl, omega arith)) in
      rw (z, lacks) (out, λ x. rw (← to_come-skips avail idx start x (omega arith) lacks) (free x))
]
group_from avail (suc left) idx start lo sum (inr (below, low)) = elim (Bool-cases (avail idx)) [
  | inl has ↦
      let z : (start == bmem_max_addr) ≡ false = ground arith in
      let (out, free) =
        group_from avail left (idx + 1) start lo (omega arith) (inr (omega arith, low)) in
      rw (z, has)
        (out, λ x. rw (← to_come-grows avail idx start x (omega arith) has below) (free x))
  | inr lacks ↦
      let z : (start != bmem_max_addr) ≡ true = ground arith in
      let whole : u32 (u32 (idx * 4096)) ≡ idx * 4096 = omega arith in
      let from : u32 start ≡ start = omega arith in
      let (out, free) =
        group_from avail left (idx + 1) bmem_max_addr (idx * 4096) (omega arith)
          (inl (refl, omega arith)) in
      rw (z, lacks, whole, from)
        (
          (low, omega arith, omega arith, out),
          λ x.
              let skipped = to_come-skips avail idx start x (omega arith) lacks in
              (
                λ f. elim f [
                  | inl here ↦ ground arith
                  | inr later ↦ let h = (free x).0 later in ground (arith, skipped, h)
                ],
                λ h. elim (Bool-cases (leb start x && ltb x (idx * 4096))) [
                  | inl here ↦ inl (ground arith, ground arith)
                  | inr there ↦ inr ((free x).1 (ground (arith, skipped)))
                ],
              ),
        )
]

-- The blocks that `bmem_init` makes lie apart, above the first page and below 1 MiB; their bytes are
-- those of the available pages, except page 0; and there is room for them in the array.
pub group_lem :
    (avail : ℕ → Bool)
    → IsLaidOut page_size (group avail 255 1 bmem_max_addr)
      × ((x : ℕ)
          → (IsFree x (group avail 255 1 bmem_max_addr)
              → (leb page_size x && (ltb x bmem_max_addr && avail (x / page_size))) ≡ true)
            × ((leb page_size x && (ltb x bmem_max_addr && avail (x / page_size))) ≡ true
                → IsFree x (group avail 255 1 bmem_max_addr)))
      × (length (group avail 255 1 bmem_max_addr) ≤ 128)
group_lem avail =
    let (out, free) = group_from avail 255 1 bmem_max_addr 4096 refl (inl (refl, omega arith)) in
    (out, free, omega (arith, group-length avail 255 1 bmem_max_addr))
