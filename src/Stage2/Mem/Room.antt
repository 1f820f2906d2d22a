-- ===== src/Stage2/Mem/Room.antt =====
-- When mem_alloc of stage2/mem.c returns.
use biefircate.Prelude.{ℕ, ◌+◌, ◌*◌, ◌≤◌, ◌≡◌}
use biefircate.Bparams.{MemRange, e820_ram}
use biefircate.Stage2.Mem.{limit}

-- A range has room for `sz` bytes at a multiple of `align`.
pub record HasRoom (sz align max_addr : ℕ) (mr : MemRange) : Type 0 where
  pub ram : mr.e820_type ≡ e820_ram
  pub ends : mr.start + mr.len ≤ limit max_addr
  pub q : ℕ
  pub above_start : mr.start ≤ q * align
  pub fits : q * align + sz ≤ mr.start + mr.len
