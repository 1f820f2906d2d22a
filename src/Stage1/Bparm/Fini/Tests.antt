-- ===== src/Stage1/Bparm/Fini/Tests.antt =====
-- A run of bmem_fini of stage 1, and its theorem at a concrete state.
use biefircate.Prelude.{ℕ, ◌≡◌, refl, inl, none, List, [], ◌∷◌, arith, Outcome, ok, ◌>>=◌, Gives}
use biefircate.Stage1.Bmem.{enough}
use biefircate.Stage1.Bmem.{
  bmem_alloc_boottime, boottime_scan, skips, take_low, shrink_low, remove_blk,
}
use biefircate.Stage1.Bmem.Init.{MemType, Desc}
use biefircate.Stage1.Bparm.{State, link, fill, bparm_add, bparm_add_mem_range}
use biefircate.Stage1.Bparm.Chain.{Holds}
use biefircate.Stage1.Bparm.Fini.{
  e820_type_of, add_uefi_mem_bparms, skip_low, add_blks, add_our_mem_bparms, bmem_fini,
}
use biefircate.Stage1.Bparm.Fini.Result.{IsResult, bmem_fini_lem}

abbrev pub start : State
start = record {
  bmem = record {
    blk = record { start = 4096; end = 0x9fc00; orig_end = 0xa0000 } ∷ [];
    boottime_bmem_bot = 4096;
    runtime_bmem_top = 0x9fc00;
    bmem_uefi_attr = 9;
  };
  bp_head = 0;
  bp_tail = 0;
  node = λ a. none;
}

pub start-Holds : Holds start []
start-Holds = record {
  valid = record { laid_out = omega arith; top_in = omega arith; bot_in = omega arith };
  chain = refl;
  tail = inl refl;
  distinct = tt;
  taken = tt;
}

abbrev pub rom : Desc
rom = record { type = MemType.other; physical_start = 0xf0000; number_of_pages = 16; attribute = 1 }

abbrev pub code : Desc
code = record {
  type = MemType.loader_code;
  physical_start = 0x1000;
  number_of_pages = 2;
  attribute = 9;
}

abbrev descs : List Desc
descs = rom ∷ code ∷ []

-- Two parameters of 48 bytes.
abbrev ends : Outcome (ℕ × ℕ)
ends = bmem_fini descs start >>= λ (bot, top, s). ok (bot, top)

runs_fini : ends ≡ ok (4192, 0x9fc00)
unfolding bmem_fini add_uefi_mem_bparms e820_type_of add_our_mem_bparms skip_low add_blks
    bparm_add_mem_range bparm_add link fill bmem_alloc_boottime boottime_scan skips take_low
    shrink_low remove_blk enough
runs_fini = refl

bmem_fini_lem_example : Gives (IsResult descs [] start) (bmem_fini descs start)
bmem_fini_lem_example = bmem_fini_lem descs start [] start-Holds
