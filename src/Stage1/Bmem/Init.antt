-- ===== src/Stage1/Bmem/Init.antt =====
-- stage1/bmem.c: bmem_init, which takes the base memory from the firmware. The bit vector `avail` is
-- a function of the page, and a write behind its 256 bits is a fault.
pub mod Grab
pub mod Blocks
pub mod Mark
pub mod Result
mod Tests
use biefircate.Prelude.{
  ℕ, zero, suc, ◌+◌, ◌-◌, ◌*◌, ◌/◌, ◌^◌, bit_and, Bool, true, false, not, ◌&&◌, Option, none, some,
  List, [], ◌∷◌, ◌++◌, ltb, leb, ◌==◌, ◌!=◌, if◌then◌else◌, Outcome, ok, stop, Stop, ◌>>=◌,
}
use biefircate.Prelude.Words.{u32}
use biefircate.Stage1.Bmem.{State, Blk, page_size, kibyte, bmem_max_addr, enough}

-- The types of memory descriptors that the code names.
pub data MemType : Type 0 where
  loader_code loader_data boot_services_code boot_services_data conventional acpi_reclaim acpi_nvs
        persistent other :
      MemType

-- The fields of `EFI_MEMORY_DESCRIPTOR` that the code reads.
pub record Desc : Type 0 where
  pub type : MemType
  pub physical_start : ℕ
  pub number_of_pages : ℕ
  pub attribute : ℕ

-- The variables before `bmem_init`, with the attributes that they start out with.
abbrev pub initial : ℕ → State
initial attr = record {
  blk = [];
  boottime_bmem_bot = page_size;
  runtime_bmem_top = 0;
  bmem_uefi_attr = attr;
}

abbrev pub num_pages : ℕ
num_pages = 256

-- The loops that set bits: `n` of them from `idx` on.
unfoldable pub set_pages : (ℕ → Bool) → ℕ → ℕ → Outcome (ℕ → Bool)
set_pages avail idx zero = ok avail
set_pages avail idx (suc n) =
    let rest = set_pages (λ k. if k == idx then true else avail k) (u32 (idx + 1)) n in
    if ltb idx num_pages then rest else stop Stop.fault

-- The two loops around AllocatePages, whose answer is a parameter: the address of the pages or none,
-- and the firmware's state. The loop over the pages leaves `page_count` at -1.
unfoldable pub grab :
    {F : Type 0} → (F → ℕ → Option ℕ × F) → ℕ → F → ℕ → (ℕ → Bool) → Outcome ((ℕ → Bool) × F)
grab allocate_pages zero fw page_count avail = stop Stop.out_of_fuel
grab allocate_pages (suc rounds) fw page_count avail = elim (allocate_pages fw page_count).0 [
  | some start ↦ set_pages avail (u32 (start / page_size)) page_count >>= λ avail'.
      grab allocate_pages rounds (allocate_pages fw page_count).1 (2 ^ 64 - 1) avail'
  | none ↦ elim (page_count / 2 == 0) [
    | true ↦ ok (avail, (allocate_pages fw page_count).1)
    | false ↦ grab allocate_pages rounds (allocate_pages fw page_count).1 (page_count / 2) avail
  ]
]

abbrev pub new_blk : ℕ → ℕ → Blk
new_blk start idx = record {
  start = u32 start;
  end = u32 (u32 (idx * page_size));
  orig_end = u32 (u32 (idx * page_size));
}

-- The blocks that the loop over the pages adds from page `idx` on, with `left` pages to come.
unfoldable pub group : (ℕ → Bool) → ℕ → ℕ → ℕ → List Blk
group avail zero idx start = if start != bmem_max_addr then new_blk start idx ∷ [] else []
group avail (suc left) idx start =
    let opened = if start == bmem_max_addr then u32 (idx * page_size) else start in
    let rest = group avail left (idx + 1) (if avail idx then opened else bmem_max_addr) in
    if not (avail idx) && (start != bmem_max_addr) then new_blk start idx ∷ rest else rest

-- The types that count as available at run time.
unfoldable pub is_usable : MemType → Bool
is_usable MemType.loader_code = true
is_usable MemType.loader_data = true
is_usable MemType.boot_services_code = true
is_usable MemType.boot_services_data = true
is_usable MemType.conventional = true
is_usable MemType.acpi_reclaim = false
is_usable MemType.acpi_nvs = false
is_usable MemType.persistent = false
is_usable MemType.other = false

abbrev pub end_idx_of : ℕ → ℕ → ℕ
end_idx_of idx n = if ltb num_pages (u32 (idx + n)) then num_pages else u32 (idx + n)

-- The loop over the memory map, with the attributes that all usable memory has.
unfoldable pub mark : List Desc → (ℕ → Bool) → ℕ → Outcome ((ℕ → Bool) × ℕ)
mark [] avail attr = ok (avail, attr)
mark (d ∷ ds) avail attr =
    let idx = u32 (d.physical_start / page_size) in
    elim (is_usable d.type && ltb d.physical_start bmem_max_addr) [
      | true ↦ set_pages avail idx (end_idx_of idx d.number_of_pages - idx) >>= λ avail'.
          mark ds avail' (bit_and attr d.attribute)
      | false ↦ mark ds avail attr
    ]

-- The last loop, with `left` pages to come: the first page that is not available.
unfoldable pub first_gap : (ℕ → Bool) → ℕ → ℕ → ℕ
first_gap avail zero idx = idx
first_gap avail (suc left) idx =
    let rest = first_gap avail left (idx + 1) in if avail idx then rest else idx

abbrev pub with_memory : State → List Blk → ℕ → ℕ → State
with_memory s blk attr idx = record s {
  blk = blk;
  bmem_uefi_attr = attr;
  runtime_bmem_top = u32 (idx * page_size);
}

-- `bmem_init()`, with the memory map that `get_mem_map` gives.
unfoldable pub bmem_init :
    {F : Type 0} → (F → ℕ → Option ℕ × F) → ℕ → F → List Desc → State → Outcome (F × State)
bmem_init allocate_pages rounds fw descs s =
    grab allocate_pages rounds fw (bmem_max_addr / page_size / 2) (λ k. false) >>= λ (avail, fw').
    mark descs avail s.bmem_uefi_attr >>= λ (avail', attr).
    let idx = first_gap avail' num_pages 0 in
    let s' = with_memory s (s.blk ++ group avail 255 1 bmem_max_addr) attr idx in
    if ltb idx (192 * kibyte / page_size)
    then stop Stop.error
    else if enough s'
    then ok (fw', s')
    else stop Stop.error
