-- ===== src/Stage1/Bmem/Init/Tests.antt =====
-- A run of bmem_init of stage 1, and its theorem at a concrete firmware.
use biefircate.Prelude.{
  ℕ, ◌-◌, ◌*◌, ◌≡◌, refl, Bool, ◌&&◌, Option, none, some, List, [], ◌∷◌, arith, ltb, leb,
  if◌then◌else◌, ok, stop, Stop,
}
use biefircate.Stage1.Bmem.{State, enough}
use biefircate.Stage1.Bmem.Init.{
  MemType, Desc, initial, set_pages, grab, group, is_usable, mark, first_gap, bmem_init,
}
use biefircate.Stage1.Bmem.Init.Grab.{IsFirmware}
use biefircate.Stage1.Bmem.Init.Result.{IsInit, bmem_init_lem}

-- The firmware has pages 0 to 159, and gives the highest ones first; its state is how many are left.
abbrev have : ℕ → ℕ
have fw = if leb fw 160 then fw else 160

abbrev allocate_pages : ℕ → ℕ → Option ℕ × ℕ
allocate_pages fw n =
    if leb n (have fw) then (some ((have fw - n) * 4096), have fw - n) else (none, fw)

abbrev owned : ℕ → ℕ → Bool
owned fw k = leb fw k && ltb k 160

abbrev left : ℕ → ℕ
left fw = fw

allocate_pages-IsFirmware : IsFirmware allocate_pages owned left
allocate_pages-IsFirmware = record {
  fits = λ fw n a pos e. (ground arith, ground arith);
  takes = λ fw n a pos e. ground arith;
  owns = λ fw n a k pos e. ground arith;
  keeps_left = λ fw n e. ground arith;
  keeps = λ fw n k e. ground arith;
}

abbrev video : Desc
video = record {
  type = MemType.other;
  physical_start = 0xa0000;
  number_of_pages = 32;
  attribute = 1;
}

abbrev loader : Desc
loader = record {
  type = MemType.loader_data;
  physical_start = 0x9f000;
  number_of_pages = 1;
  attribute = 9;
}

abbrev descs : List Desc
descs = video ∷ loader ∷ []

abbrev memory : State
memory = record {
  blk = record { start = 4096; end = 0xa0000; orig_end = 0xa0000 } ∷ [];
  boottime_bmem_bot = 4096;
  runtime_bmem_top = 0xa0000;
  bmem_uefi_attr = 9;
}

runs_init : bmem_init allocate_pages 1000 160 descs (initial 15) ≡ ok (0, memory)
unfolding bmem_init grab set_pages mark is_usable first_gap group enough
runs_init = refl

bmem_init_lem_example :
    (fw' : ℕ) × (s' : State) × (bmem_init allocate_pages 20000 160 descs (initial 15)
      ≡ (if enough s' then ok (fw', s') else stop Stop.error))
    × IsInit owned descs fw' s'
bmem_init_lem_example =
    bmem_init_lem allocate_pages owned left 20000 15 160 descs allocate_pages-IsFirmware
      (λ k. ground arith) (omega arith, (omega arith, tt)) (omega arith)
