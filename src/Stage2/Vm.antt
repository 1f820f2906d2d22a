-- ===== src/Stage2/Vm.antt =====
-- stage2/mem.c: the page tables of stage 2, and the virtual addresses that are not in use. The 64-bit
-- entries of the tables in memory are `table`, by the table's address and the entry's index; all
-- tables are pages, which do not overlap. The four entries at `pdpt` are a function of their index.
pub mod Entries
pub mod Tables
pub mod Keep
pub mod Ensure
pub mod Map
pub mod Unmap
pub mod Tests
use biefircate.Prelude.{
  ℕ, zero, suc, ◌+◌, ◌-◌, ◌*◌, ◌/◌, ◌^◌, ◌%◌, bit_and, bit_or, Bool, true, false, not, ◌&&◌, ◌||◌,
  List, [], ◌∷◌, ltb, leb, ◌==◌, ◌!=◌, if◌then◌else◌, Outcome, ok, stop, Stop, ◌>>=◌,
}
use biefircate.Prelude.Words.{u32, u64, sub_w, neg_w}
use biefircate.Stage2.Mem
use biefircate.Stage2.Mem.{mem_alloc}

pub record VaRange : Type 0 where
  pub start : ℕ
  pub len : ℕ

pub record State : Type 0 where
  pub mem : Mem.State
  pub pdpt : ℕ → ℕ
  pub table : ℕ → ℕ → ℕ
  pub unused_va_ranges : List VaRange
  pub max_unused_va_ranges : ℕ

abbrev pub page_size : ℕ
page_size = 0x1000

abbrev pub large_page_size : ℕ
large_page_size = 0x200000

abbrev pub pdpt_align : ℕ
pdpt_align = 0x20

-- Bits of the entries.
abbrev pub pte_p : ℕ
pte_p = 1

abbrev pub pte_rw : ℕ
pte_rw = 2

abbrev pub pte_us : ℕ
pte_us = 4

abbrev pub pte_wt : ℕ
pte_wt = 8

abbrev pub pte_cd : ℕ
pte_cd = 16

abbrev pub pde_ps : ℕ
pde_ps = 128

-- `(pde & PDE_PS) != 0`.
unfoldable pub is_large : ℕ → Bool
is_large pde = bit_and pde pde_ps != 0

-- The table that an entry of a page directory points to.
unfoldable pub pt_of : ℕ → ℕ
pt_of pde = bit_and (u32 pde) (neg_w 32 page_size)

-- The page directory of the `i`-th GiB.
unfoldable pub pd_of : State → ℕ → ℕ
pd_of s i = bit_and (u32 (s.pdpt i)) (neg_w 32 pdpt_align)

-- `base[i] = v`.
abbrev pub set_entry : State → ℕ → ℕ → ℕ → State
set_entry s base i v = record s { table = λ b k. if b == base && k == i then v else s.table b k }

-- All the entries of a new table.
abbrev pub set_table : State → ℕ → (ℕ → ℕ) → State
set_table s base row = record s { table = λ b k. if b == base then row k else s.table b k }

-- The loop of `ensure_pt` that fills a table, with `left` rounds left.
unfoldable pub fill_pt : ℕ → ℕ → ℕ → (ℕ → ℕ) → ℕ → ℕ
fill_pt zero i pte row = row
fill_pt (suc left) i pte row =
    fill_pt left (i + 1) (u64 (pte + page_size)) (λ k. if k == i then pte else row k)

-- `pde & ~(uint64_t)PDE_PS`.
unfoldable pub small_of : ℕ → ℕ
small_of pde = bit_and pde (2 ^ 64 - 1 - pde_ps)

-- The new table of `ensure_pt`, from the entry that it takes the place of.
unfoldable pub new_row : ℕ → (ℕ → ℕ) → ℕ → ℕ
new_row pde row = if pde != 0 then fill_pt 512 0 (small_of pde) row else λ k. 0

-- The entry for a new table.
abbrev pub table_entry : ℕ → ℕ
table_entry pt = bit_or (bit_or (bit_or pt pte_p) pte_rw) pte_us

-- `ensure_pt(&pd[pdi])`.
unfoldable pub ensure_pt : State → ℕ → ℕ → Outcome (ℕ × State)
ensure_pt s pd pdi =
    let pde = s.table pd pdi in
    if pde != 0 && not (is_large pde)
    then ok (pt_of pde, s)
    else mem_alloc s.mem page_size page_size 0 >>= λ (pt, mem). ok (
      pt,
      set_entry (set_table (record s { mem = mem }) pt (new_row pde (s.table pt))) pd pdi
          (table_entry pt),
    )

-- The entries of `do_va_map` for a small and for a large page.
abbrev pub small_entry : ℕ → ℕ → ℕ
small_entry pstart flags = bit_or (bit_or (bit_or (bit_or pstart pte_p) pte_rw) pte_us) flags

abbrev pub large_entry : ℕ → ℕ → ℕ
large_entry pstart flags =
    bit_or (bit_or (bit_or (bit_or (bit_or pstart pte_p) pte_rw) pte_us) pde_ps) flags

-- `vstart >> 30`, `(vstart >> 21) & 0x1ff` and `(vstart >> 12) & 0x1ff`.
abbrev pub pdpti_of : ℕ → ℕ
pdpti_of vstart = vstart / 2 ^ 30

abbrev pub pdi_of : ℕ → ℕ
pdi_of vstart = bit_and (vstart / 2 ^ 21) 0x1ff

abbrev pub pti_of : ℕ → ℕ
pti_of vstart = bit_and (vstart / 2 ^ 12) 0x1ff

-- The test of `do_va_map` for a large page.
unfoldable pub takes_large : ℕ → ℕ → ℕ → ℕ → Bool
takes_large vstart pstart len pde =
    (vstart % large_page_size == 0)
    && ((pstart % large_page_size == 0)
        && (leb large_page_size len && ((pde == 0) || is_large pde)))

-- `do_va_map(vstart, pstart, len, pte_flags)`. A round maps at least one page, so as many rounds as
-- `len` has pages are enough.
unfoldable pub do_va_map : ℕ → ℕ → ℕ → ℕ → ℕ → State → Outcome State
do_va_map zero vstart pstart len flags s = if len == 0 then ok s else stop Stop.out_of_fuel
do_va_map (suc rounds) vstart pstart len flags s =
    let pd = pd_of s (pdpti_of vstart) in
    let pdi = pdi_of vstart in
    elim (len == 0) [
      | true ↦ ok s
      | false ↦ elim (takes_large vstart pstart len (s.table pd pdi)) [
        | true ↦
            do_va_map rounds (u32 (vstart + large_page_size)) (u64 (pstart + large_page_size))
              (len - large_page_size) flags (set_entry s pd pdi (large_entry pstart flags))
        | false ↦ ensure_pt s pd pdi >>= λ (pt, s').
            do_va_map rounds (u32 (vstart + page_size)) (u64 (pstart + page_size))
              (sub_w 32 len page_size) flags
              (set_entry s' pt (pti_of vstart) (small_entry pstart flags))
      ]
    ]

-- One round of `do_va_unmap`, with the indices of the entries: how much of the range it deals with,
-- and the tables.
unfoldable pub unmap_at : ℕ → ℕ → ℕ → ℕ → ℕ → State → ℕ × State
unmap_at pd pdi pti vstart len s =
    let pde = s.table pd pdi in
    if is_large pde
    then (if (vstart % large_page_size == 0) && leb large_page_size len
        then (large_page_size, set_entry s pd pdi 0)
        else (page_size, s))
    else (page_size, if pde != 0 then set_entry s (pt_of pde) pti 0 else s)

abbrev pub unmap_round : ℕ → ℕ → State → ℕ × State
unmap_round vstart len s =
    unmap_at (pd_of s (pdpti_of vstart)) (pdi_of vstart) (pti_of vstart) vstart len s

-- `do_va_unmap(vstart, len)`, with the rounds as for `do_va_map`.
unfoldable pub do_va_unmap : ℕ → ℕ → ℕ → State → Outcome State
do_va_unmap zero vstart len s = if len == 0 then ok s else stop Stop.out_of_fuel
do_va_unmap (suc rounds) vstart len s =
    let (done, s') = unmap_round vstart len s in
    let rest = do_va_unmap rounds (u32 (vstart + done)) (sub_w 32 len done) s' in
    if len == 0 then ok s else rest
