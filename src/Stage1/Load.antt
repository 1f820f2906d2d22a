-- ===== src/Stage1/Load.antt =====
-- stage1/main.c: load_stage2 and its helpers, which load the ELF file of stage 2 into memory. The file
-- and the firmware's pages are parameters.
pub mod Elf
pub mod Files
pub mod Segments
pub mod Extents
pub mod Loop
pub mod Image
pub mod Served
pub mod Closed
mod Tests
use biefircate.Prelude.{
  ℕ, not, zero, suc, ◌+◌, ◌-◌, ◌*◌, ◌/◌, ◌^◌, ◌%◌, Bool, true, false, ◌&&◌, ◌||◌, List, [], ◌∷◌,
  Option, none, some, ltb, leb, ◌==◌, ◌!=◌, if◌then◌else◌, length, get_or,
}
use biefircate.Prelude.Words.{u32, sub_w}
use biefircate.Stage1.Load.Elf.{
  Ehdr, Phdr, ehdr_of, phdrs_of, is_elf, is_current, has_sizes, em_386, pt_load, sizeof_ehdr,
  sizeof_phdr,
}

-- The two files that the loader opens: the volume and the program.
pub data File : Type 0 where
  vol prog : File

-- STAGE2, STAGE2_ALT and STAGE2_ALT_ALT.
pub data Name : Type 0 where
  stage2 stage2_alt stage2_alt_alt : Name

-- What a call of the firmware comes to: a status, and the firmware's state. A success may have a result.
pub data Answer {ℓ κ} (S : Type ℓ) (A : Type κ) : Type (ℓ ⊔ κ) where
  success : A → S → Answer S A
  failure : S → Answer S A

-- What the loader calls of the firmware.
pub record Firmware : Type 1 where
  pub State : Type 0
  pub handle_protocol : State → Answer State (Unit {0})
  pub open_volume : State → Answer State (Unit {0})
  pub open_prog : Name → State → Answer State (Unit {0})
  pub file_info : State → Answer State (Unit {0})
  pub read : ℕ → State → Answer State (List ℕ)
  pub set_position : ℕ → State → Answer State (Unit {0})
  pub close : File → State → State
  pub allocate_pages : ℕ → ℕ → State → Answer State (Unit {0})
  pub free_pages : ℕ → ℕ → State → State

-- The messages of `error(.)` and `error_with_status(.)`.
pub data Reason : Type 0 where
  no_file_system no_volume no_stage2 no_info cannot_read short_read cannot_seek no_memory
        bad_stage2 :
      Reason

-- Memory's bytes, by their addresses.
abbrev pub Bytes : Type 0
Bytes = ℕ → ℕ

-- `read(buf)` and `memset(at, 0, n)`, as writes to memory.
unfoldable pub put_bytes : ℕ → List ℕ → Bytes → Bytes
put_bytes at bs byte x = if leb at x && ltb x (at + length bs) then get_or bs (x - at) 0 else byte x

unfoldable pub clear : ℕ → ℕ → Bytes → Bytes
clear at n byte x = if leb at x && ltb x (at + n) then 0 else byte x

abbrev pub efi_page_size : ℕ
efi_page_size = 4096

-- A segment after the slack before its first byte is added.
pub record Extent : Type 0 where
  pub off : ℕ
  pub paddr : ℕ
  pub filesz : ℕ
  pub memsz : ℕ

unfoldable pub with_slack : Phdr → Extent
with_slack p =
    let slack = p.p_paddr % efi_page_size in
    if slack != 0
    then record {
      off = sub_w 32 p.p_offset slack;
      paddr = p.p_paddr - slack;
      filesz = if p.p_filesz != 0 then u32 (p.p_filesz + slack) else p.p_filesz;
      memsz = u32 (p.p_memsz + slack);
    }
    else record { off = p.p_offset; paddr = p.p_paddr; filesz = p.p_filesz; memsz = p.p_memsz }

abbrev pub pages_of : ℕ → ℕ
pages_of memsz = (memsz + efi_page_size - 1) / efi_page_size

abbrev pub max_phdrs : ℕ
max_phdrs = 16

-- The checks of the ELF header.
unfoldable pub is_loadable : Ehdr → Bool
is_loadable h =
    is_elf h && is_current h && has_sizes h && leb h.e_phnum max_phdrs && (h.e_machine == em_386)

module _ (F : Firmware) where
  -- The firmware's state and memory.
  pub record Machine : Type 0 where
    pub fw : F.State
    pub byte : Bytes

  -- What a call comes to: a value, or an error message, and the state at that time.
  pub data Ending {ℓ} (A : Type ℓ) : Type ℓ where
    returned : A → Machine → Ending A
    gave_up : Reason → Machine → Ending A

  abbrev pub bind {ℓ κ} : {A : Type ℓ} {B : Type κ} → Ending A → (A → Machine → Ending B) → Ending B
  bind (returned a m) k = k a m
  bind (gave_up why m) k = gave_up why m

  abbrev pub close_both : Machine → Machine
  close_both m = record m { fw = F.close File.vol (F.close File.prog m.fw) }

  -- `read_stage2(prog, vol, size, buf)`: the bytes that are read. What a failed read puts into the
  -- buffer is not told.
  unfoldable pub read_stage2 : ℕ → Machine → Ending (List ℕ)
  read_stage2 size m = if size == 0 then returned [] m else elim (F.read size m.fw) [
    | Answer.failure fw ↦ gave_up Reason.cannot_read (close_both (record m { fw = fw }))
    | Answer.success bs fw ↦
        if length bs != size
        then gave_up Reason.short_read (close_both (record m { fw = fw }))
        else returned bs (record m { fw = fw })
  ]

  -- `seek_stage2(prog, vol, pos)`.
  unfoldable pub seek_stage2 : ℕ → Machine → Ending (Unit {0})
  seek_stage2 pos m = elim (F.set_position pos m.fw) [
    | Answer.failure fw ↦ gave_up Reason.cannot_seek (close_both (record m { fw = fw }))
    | Answer.success u fw ↦ returned tt (record m { fw = fw })
  ]

  -- `free_stage2_mem(phdrs, ph_cnt)`. The count of pages is that of the first header each time.
  unfoldable pub free_pages_of : ℕ → List Phdr → ℕ → F.State → F.State
  free_pages_of pages phdrs zero fw = fw
  free_pages_of pages [] (suc cnt) fw = fw
  free_pages_of pages (p ∷ ps) (suc cnt) fw =
      free_pages_of pages ps cnt (F.free_pages p.p_paddr pages fw)

  abbrev pub free_stage2_mem : List Phdr → ℕ → Machine → Machine
  free_stage2_mem [] cnt m = m
  free_stage2_mem (p ∷ ps) cnt m = record m {
    fw = free_pages_of (pages_of p.p_memsz) (p ∷ ps) cnt m.fw;
  }

  -- What is put into the pages of a segment.
  unfoldable pub fill_segment : Extent → Machine → Ending (Unit {0})
  fill_segment e m =
      bind
        (if e.filesz == 0
          then returned [] m
          else bind (seek_stage2 e.off m) (λ _. read_stage2 e.filesz))
        λ bs m'. returned tt (record m' {
          byte =
              clear (e.paddr + e.filesz) (sub_w 32 e.memsz e.filesz) (put_bytes e.paddr bs m'.byte);
        })

  -- The body of the loop, for the header at `ph_idx`.
  unfoldable pub load_segment : List Phdr → ℕ → Phdr → Machine → Ending (Unit {0})
  load_segment phdrs ph_idx p m =
      if p.p_type != pt_load
      then returned tt m
      else if ltb p.p_memsz p.p_filesz
      then gave_up Reason.bad_stage2 (close_both (free_stage2_mem phdrs ph_idx m))
      else let e = with_slack p in
        elim (F.allocate_pages e.paddr (pages_of e.memsz) m.fw) [
          | Answer.failure fw ↦
              gave_up Reason.no_memory (free_stage2_mem phdrs ph_idx (record m { fw = fw }))
          | Answer.success u fw ↦ fill_segment e (record m { fw = fw })
        ]

  -- The loop, with the headers `rest` from `ph_idx` on to come.
  unfoldable pub load_segments : List Phdr → ℕ → List Phdr → Machine → Ending (Unit {0})
  load_segments phdrs ph_idx [] m = returned tt m
  load_segments phdrs ph_idx (p ∷ rest) m =
      bind (load_segment phdrs ph_idx p m) λ _. load_segments phdrs (ph_idx + 1) rest

  -- `load_stage2` from where the ELF header is read.
  unfoldable pub load_elf : Ehdr → Machine → Ending ℕ
  load_elf h m =
      if is_loadable h
      then bind (seek_stage2 h.e_phoff m) (λ _ m1.
        bind (read_stage2 (h.e_phnum * sizeof_phdr) m1) (λ ps m2.
          bind (load_segments (phdrs_of h.e_phnum ps) 0 (phdrs_of h.e_phnum ps) m2)
            (λ _ m3. returned h.e_entry (close_both m3))))
      else gave_up Reason.bad_stage2 (close_both m)

  -- `load_stage2` from where the program is open.
  unfoldable pub load_prog : Machine → Ending ℕ
  load_prog m = bind (read_stage2 sizeof_ehdr m) λ bs. load_elf (ehdr_of bs)

  -- `vol->Open` by the three names.
  unfoldable pub open_stage2 : F.State → Answer F.State (Unit {0})
  open_stage2 fw = elim (F.open_prog Name.stage2 fw) [
    | Answer.success u fw1 ↦ Answer.success tt fw1
    | Answer.failure fw1 ↦ elim (F.open_prog Name.stage2_alt fw1) [
      | Answer.success u fw2 ↦ Answer.success tt fw2
      | Answer.failure fw2 ↦ F.open_prog Name.stage2_alt_alt fw2
    ]
  ]

  -- `load_stage2()`: the entry point. The fourth step is `dump_stage2_info`.
  unfoldable pub load_stage2 : Machine → Ending ℕ
  load_stage2 m = elim (F.handle_protocol m.fw) [
    | Answer.failure fw ↦ gave_up Reason.no_file_system (record m { fw = fw })
    | Answer.success u fw1 ↦ elim (F.open_volume fw1) [
      | Answer.failure fw ↦ gave_up Reason.no_volume (record m { fw = fw })
      | Answer.success u fw2 ↦ elim (open_stage2 fw2) [
        | Answer.failure fw ↦ gave_up Reason.no_stage2 (record m { fw = F.close File.vol fw })
        | Answer.success u fw3 ↦ elim (F.file_info fw3) [
          | Answer.failure fw ↦ gave_up Reason.no_info (record m { fw = fw })
          | Answer.success u fw4 ↦ load_prog (record m { fw = fw4 })
        ]
      ]
    ]
  ]
