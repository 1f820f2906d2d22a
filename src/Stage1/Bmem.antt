-- ===== src/Stage1/Bmem.antt =====
-- stage1/bmem.c: the base memory below the 1 MiB mark. The module's static variables are the
-- record `State`: `blk[0 .. num_blks - 1]` is the list `blk`.
pub mod Layout
pub mod Alloc
pub mod Boottime
pub mod Calls
pub mod Init
use biefircate.Prelude.{
  ℕ, zero, suc, ◌+◌, ◌-◌, ◌*◌, ◌^◌, ◌%◌, ◌<◌, bit_and, Bool, true, false, ◌||◌, Option, none, some,
  List, [], ◌∷◌, ltb, leb, ◌==◌, if◌then◌else◌, length, get_or, set, Outcome, ok, stop, Stop,
}
use biefircate.Prelude.Words.{u32, u64, sub_w, neg_w}

-- EFI_PAGE_SIZE, PARA_SIZE, KIBYTE and BMEM_MAX_ADDR.
abbrev pub page_size : ℕ
page_size = 4096

abbrev pub para_size : ℕ
para_size = 16

abbrev pub kibyte : ℕ
kibyte = 1024

abbrev pub bmem_max_addr : ℕ
bmem_max_addr = 0x100000

-- `blk_info_t`: the free part of a block is [start, end); [end, orig_end) has been handed out.
pub record Blk : Type 0 where
  pub start : ℕ
  pub end : ℕ
  pub orig_end : ℕ

pub record State : Type 0 where
  pub blk : List Blk
  pub boottime_bmem_bot : ℕ
  pub runtime_bmem_top : ℕ
  pub bmem_uefi_attr : ℕ

abbrev pub no_blk : Blk
no_blk = record { start = 0; end = 0; orig_end = 0 }

abbrev pub blk_at : List Blk → ℕ → Blk
blk_at blk i = get_or blk i no_blk

-- The address that `bmem_alloc` tries in a block: as high as it can be, rounded down.
abbrev pub high_astart : ℕ → ℕ → Blk → ℕ
high_astart size align b = u32 (bit_and (sub_w 64 b.end size) (neg_w 32 (u32 align)))

-- The loop of `bmem_alloc` with the blocks below index `n` left to try, from the highest down:
-- the index of the block that it takes, and the address in it.
unfoldable pub alloc_scan : List Blk → ℕ → ℕ → ℕ → Option (ℕ × ℕ)
alloc_scan blk size align zero = none
alloc_scan blk size align (suc i) =
    let rest = alloc_scan blk size align i in
    let b = blk_at blk i in
    if ltb (sub_w 32 b.end b.start) size
    then rest
    else let astart = high_astart size align b in
      if ltb astart b.start then rest else some (i, astart)

-- The writes of `bmem_alloc` once it has found a place.
abbrev pub take_high : State → ℕ → ℕ → State
take_high s i astart = record s {
  blk = set s.blk i (record (blk_at s.blk i) { end = astart });
  runtime_bmem_top = if ltb astart s.runtime_bmem_top then astart else s.runtime_bmem_top;
}

-- `bmem_alloc(size, align)`.
unfoldable pub bmem_alloc : State → ℕ → ℕ → Outcome (ℕ × State)
bmem_alloc s size align = elim (alloc_scan s.blk size align (length s.blk)) [
  | none ↦ stop Stop.error
  | some (i, astart) ↦ ok (astart, take_high s i astart)
]

-- The address that `bmem_alloc_boottime` tries in a block: as low as it can be, rounded up.
abbrev pub low_astart : ℕ → Blk → ℕ
low_astart align b = bit_and (sub_w 32 (u32 (b.start + u32 align)) 1) (neg_w 32 (u32 align))

-- The three tests that make `bmem_alloc_boottime` go on to the next block.
unfoldable pub skips : ℕ → ℕ → Blk → Bool
skips size align b =
    let astart = low_astart align b in
    ltb (sub_w 32 b.end b.start) size || (ltb b.end astart || ltb (sub_w 32 b.end astart) size)

-- The loop of `bmem_alloc_boottime` over the blocks from index `i` on. What it finds may still
-- lie above `runtime_bmem_top`, which the caller tests.
unfoldable pub boottime_scan : ℕ → ℕ → List Blk → ℕ → Option (ℕ × ℕ)
boottime_scan size align [] i = none
boottime_scan size align (b ∷ bs) i =
    let rest = boottime_scan size align bs (i + 1) in
    if skips size align b then rest else some (i, low_astart align b)

-- The blocks above index `i` move down one place, and `num_blks` falls by one.
unfoldable pub remove_blk : List Blk → ℕ → List Blk
remove_blk [] i = []
remove_blk (b ∷ bs) zero = bs
remove_blk (b ∷ bs) (suc i) = b ∷ remove_blk bs i

-- Block `i` now starts at `aend`, or goes if nothing of it is left.
unfoldable pub shrink_low : List Blk → ℕ → ℕ → List Blk
shrink_low blk i aend =
    if aend == (blk_at blk i).end
    then remove_blk blk i
    else set blk i (record (blk_at blk i) { start = aend })

-- The writes of `bmem_alloc_boottime` once it has found a place.
unfoldable pub take_low : State → ℕ → ℕ → ℕ → State
take_low s i astart size =
    let aend = u32 (astart + size) in
    record s {
      boottime_bmem_bot = if ltb s.boottime_bmem_bot aend then aend else s.boottime_bmem_bot;
      blk = shrink_low s.blk i aend;
    }

-- `bmem_alloc_boottime(size, align)`.
unfoldable pub bmem_alloc_boottime : State → ℕ → ℕ → Outcome (ℕ × State)
bmem_alloc_boottime s size align = elim (boottime_scan size align s.blk 0) [
  | none ↦ stop Stop.error
  | some (i, astart) ↦
      if leb s.runtime_bmem_top astart
      then stop Stop.error
      else ok (astart, take_low s i astart size)
]

-- `bmem_check_enough`: whether it returns.
unfoldable pub enough : State → Bool
enough s =
    if ltb s.runtime_bmem_top (192 * kibyte)
    then false
    else leb s.boottime_bmem_bot (s.runtime_bmem_top - 128 * kibyte)
