-- ===== src/Stage2/Vm/Entries.antt =====
-- The bits of page table entries: an address in the high bits, flags in the low twelve.
use biefircate.Prelude.{
  ℕ, ◌+◌, ◌-◌, ◌*◌, ◌^◌, ◌<◌, bit_and, bit_or, ◌≡◌, refl, ap, ◌∙◌, Bool, true, false, ◌&&◌, ltb,
  ◌==◌, ◌!=◌, arith,
}
use biefircate.Prelude.Digits.{bit_or_fields, bit_and_fields, bit_or-zero, bit_and-zero}
use biefircate.Prelude.Tables.{holds_below, holds_below-at}
use biefircate.Prelude.Words.{u32, neg_w, bit_and_low, IsAlignedDown, bit_and-neg}
use biefircate.Stage2.Vm.{
  pte_p, pdpt_align, pde_ps, is_large, pt_of, small_of, table_entry, small_entry, large_entry,
}

-- `|` and `&` with flags, on an address with flags.
or_flags : (q r b : ℕ) → r < 4096 → b < 4096 → bit_or (q * 4096 + r) b ≡ q * 4096 + bit_or r b
or_flags q r b h g =
    let z : b ≡ 0 * 2 ^ 12 + b = omega arith in
    ap (λ t. bit_or (q * 4096 + r) t) z
    ∙ bit_or_fields 12 q r 0 b h g
    ∙ ap (λ t. t * 4096 + bit_or r b) (bit_or-zero q)

and_flags : (q r b : ℕ) → r < 4096 → b < 4096 → bit_and (q * 4096 + r) b ≡ bit_and r b
and_flags q r b h g =
    let z : b ≡ 0 * 2 ^ 12 + b = omega arith in
    let e : bit_and q 0 * 4096 + bit_and r b ≡ bit_and r b = omega (arith, bit_and-zero q) in
    ap (λ t. bit_and (q * 4096 + r) t) z ∙ bit_and_fields 12 q r 0 b h g ∙ e

clear_flag :
    (q r : ℕ)
    → q < 2 ^ 52
    → r < 4096
    → small_of (q * 4096 + r) ≡ q * 4096 + bit_and r (4095 - pde_ps)
unfolding small_of
clear_flag q r h g =
    bit_and_fields 12 q r (2 ^ 52 - 1) (4095 - pde_ps) g (omega arith)
    ∙ omega (arith, bit_and_low 52 q)

-- The flags of an entry that maps a page.
abbrev pub attr : ℕ → ℕ
attr flags = bit_or 7 flags

abbrev flags_well : ℕ → Bool
flags_well f =
    ltb (attr f) 128
    && (ltb (bit_or 135 f) 4096
        && ((bit_and (bit_or 135 f) 128 != 0) && (bit_and (bit_or 135 f) (4095 - 128) == attr f)))

flags_table : holds_below 128 flags_well ≡ true
unfolding holds_below
flags_table = refl

attr_lem :
    (f : ℕ)
    → f < 128
    → (attr f < 128)
      × (bit_or 135 f < 4096)
      × ((bit_and (bit_or 135 f) 128 != 0) ≡ true)
      × (bit_and (bit_or 135 f) (4095 - 128) ≡ attr f)
attr_lem f h =
    let law = holds_below-at flags_well 128 f h flags_table in
    (ground arith, ground arith, ground arith, ground arith)

pub attr-lt : (f : ℕ) → f < 128 → attr f < 128
attr-lt f h = (attr_lem f h).0

pub small_entry_lem : (q f : ℕ) → f < 128 → small_entry (q * 4096) f ≡ q * 4096 + attr f
small_entry_lem q f h =
    let z : q * 4096 ≡ q * 4096 + 0 = omega arith in
    ap (λ e. bit_or (bit_or (bit_or (bit_or e 1) 2) 4) f) z
    ∙ ap (λ e. bit_or (bit_or (bit_or e 2) 4) f) (or_flags q 0 1 (omega arith) (omega arith))
    ∙ ap (λ e. bit_or (bit_or e 4) f) (or_flags q 1 2 (omega arith) (omega arith))
    ∙ ap (λ e. bit_or e f) (or_flags q 3 4 (omega arith) (omega arith))
    ∙ or_flags q 7 f (omega arith) (omega arith)

pub large_entry_lem : (q f : ℕ) → f < 128 → large_entry (q * 4096) f ≡ q * 4096 + bit_or 135 f
large_entry_lem q f h =
    let z : q * 4096 ≡ q * 4096 + 0 = omega arith in
    ap (λ e. bit_or (bit_or (bit_or (bit_or (bit_or e 1) 2) 4) 128) f) z
    ∙ ap (λ e. bit_or (bit_or (bit_or (bit_or e 2) 4) 128) f)
        (or_flags q 0 1 (omega arith) (omega arith))
    ∙ ap (λ e. bit_or (bit_or (bit_or e 4) 128) f) (or_flags q 1 2 (omega arith) (omega arith))
    ∙ ap (λ e. bit_or (bit_or e 128) f) (or_flags q 3 4 (omega arith) (omega arith))
    ∙ ap (λ e. bit_or e f) (or_flags q 7 128 (omega arith) (omega arith))
    ∙ or_flags q 135 f (omega arith) (omega arith)

-- The entry for a large page is marked so, and stands for the same flags.
pub large_entry-is_large : (q f : ℕ) → f < 128 → is_large (large_entry (q * 4096) f) ≡ true
unfolding is_large
large_entry-is_large q f h =
    let law = attr_lem f h in
    ap (λ e. bit_and e 128 != 0) (large_entry_lem q f h)
    ∙ ap (λ e. e != 0) (and_flags q (bit_or 135 f) 128 law.1 (omega arith))
    ∙ law.2

pub small_of-large_entry :
    (q f : ℕ) → q < 2 ^ 52 → f < 128 → small_of (large_entry (q * 4096) f) ≡ q * 4096 + attr f
small_of-large_entry q f g h =
    let law = attr_lem f h in
    ap small_of (large_entry_lem q f h)
    ∙ clear_flag q (bit_or 135 f) g law.1
    ∙ ap (λ e. q * 4096 + e) law.3

-- The entry for a table is not 0, is no large page's, and points to the table.
pub table_entry_lem :
    (q : ℕ)
    → q < 2 ^ 20
    → ((table_entry (q * 4096) == 0) ≡ false)
      × (is_large (table_entry (q * 4096)) ≡ false)
      × (pt_of (table_entry (q * 4096)) ≡ q * 4096)
unfolding is_large pt_of
table_entry_lem q h =
    let z : q * 4096 ≡ q * 4096 + 0 = omega arith in
    let e : table_entry (q * 4096) ≡ q * 4096 + 7 =
      ap (λ e. bit_or (bit_or (bit_or e 1) 2) 4) z
      ∙ ap (λ e. bit_or (bit_or e 2) 4) (or_flags q 0 1 (omega arith) (omega arith))
      ∙ ap (λ e. bit_or e 4) (or_flags q 1 2 (omega arith) (omega arith))
      ∙ or_flags q 3 4 (omega arith) (omega arith) in
    let low : bit_and (q * 4096 + 7) 128 ≡ 0 = and_flags q 7 128 (omega arith) (omega arith) in
    let down : IsAlignedDown (q * 4096 + 7) 4096 (bit_and (q * 4096 + 7) (neg_w 32 4096)) =
      bit_and-neg 32 (q * 4096 + 7) 4096 (omega arith) (12, 20, refl, refl) in
    let word : u32 (q * 4096 + 7) ≡ q * 4096 + 7 = omega arith in
    (
      rw e (ground arith),
      ap (λ t. bit_and t 128 != 0) e ∙ ap (λ t. t != 0) low,
      ap pt_of e
          ∙ ap (λ t. bit_and t (neg_w 32 4096)) word
          ∙ omega (arith, down.below, down.near, down.multiple),
    )

-- The entry for a page directory points to the directory.
pub directory_entry_lem :
    (q : ℕ)
    → q < 2 ^ 20
    → bit_and (u32 (bit_or (u32 (q * 4096)) pte_p)) (neg_w 32 pdpt_align) ≡ q * 4096
directory_entry_lem q h =
    let word : u32 (q * 4096) ≡ q * 4096 + 0 = omega arith in
    let e : bit_or (u32 (q * 4096)) 1 ≡ q * 4096 + 1 =
      ap (λ e. bit_or e 1) word ∙ or_flags q 0 1 (omega arith) (omega arith) in
    let word' : u32 (q * 4096 + 1) ≡ q * 4096 + 1 = omega arith in
    let down : IsAlignedDown (q * 4096 + 1) 32 (bit_and (q * 4096 + 1) (neg_w 32 32)) =
      bit_and-neg 32 (q * 4096 + 1) 32 (omega arith) (5, 27, refl, refl) in
    ap (λ e. bit_and (u32 e) (neg_w 32 32)) e
    ∙ ap (λ e. bit_and e (neg_w 32 32)) word'
    ∙ omega (arith, down.below, down.near, down.multiple)
