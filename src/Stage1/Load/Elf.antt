-- ===== src/Stage1/Load/Elf.antt =====
-- elf.h: the headers of an ELF file, decoded from the bytes that are read.
use biefircate.Prelude.{
  ℕ, zero, suc, ◌+◌, ◌*◌, Bool, ◌&&◌, List, [], ◌∷◌, leb, ◌==◌, get_or, take, drop,
}

-- A little-endian field of 1, 2 or 4 bytes at an offset of a structure.
abbrev pub byte_at : List ℕ → ℕ → ℕ
byte_at bs i = get_or bs i 0

abbrev pub half_at : List ℕ → ℕ → ℕ
half_at bs i = byte_at bs i + byte_at bs (i + 1) * 0x100

abbrev pub word_at : List ℕ → ℕ → ℕ
word_at bs i = half_at bs i + half_at bs (i + 2) * 0x10000

-- `Elf32_Ehdr`: the fields that the loader reads.
pub record Ehdr : Type 0 where
  pub e_ident : List ℕ
  pub e_machine : ℕ
  pub e_version : ℕ
  pub e_entry : ℕ
  pub e_phoff : ℕ
  pub e_ehsize : ℕ
  pub e_phentsize : ℕ
  pub e_phnum : ℕ

-- `Elf32_Phdr`: the fields that the loader uses.
pub record Phdr : Type 0 where
  pub p_type : ℕ
  pub p_offset : ℕ
  pub p_paddr : ℕ
  pub p_filesz : ℕ
  pub p_memsz : ℕ

abbrev pub ei_nident : ℕ
ei_nident = 16

abbrev pub sizeof_ehdr : ℕ
sizeof_ehdr = 52

abbrev pub sizeof_phdr : ℕ
sizeof_phdr = 32

abbrev pub em_386 : ℕ
em_386 = 3

abbrev pub pt_load : ℕ
pt_load = 1

unfoldable pub ehdr_of : List ℕ → Ehdr
ehdr_of bs = record {
  e_ident = take ei_nident bs;
  e_machine = half_at bs 18;
  e_version = word_at bs 20;
  e_entry = word_at bs 24;
  e_phoff = word_at bs 28;
  e_ehsize = half_at bs 40;
  e_phentsize = half_at bs 42;
  e_phnum = half_at bs 44;
}

unfoldable pub phdr_of : List ℕ → Phdr
phdr_of bs = record {
  p_type = word_at bs 0;
  p_offset = word_at bs 4;
  p_paddr = word_at bs 12;
  p_filesz = word_at bs 16;
  p_memsz = word_at bs 20;
}

-- The array of `n` program headers.
unfoldable pub phdrs_of : ℕ → List ℕ → List Phdr
phdrs_of zero bs = []
phdrs_of (suc n) bs = phdr_of bs ∷ phdrs_of n (drop sizeof_phdr bs)

-- ELFMAG0 to ELFMAG3; the two versions are EV_CURRENT; the headers' sizes.
unfoldable pub is_elf : Ehdr → Bool
is_elf h =
    (byte_at h.e_ident 0 == 0x7f)
    && (byte_at h.e_ident 1 == 0x45)
    && (byte_at h.e_ident 2 == 0x4c)
    && (byte_at h.e_ident 3 == 0x46)

unfoldable pub is_current : Ehdr → Bool
is_current h = (byte_at h.e_ident 6 == 1) && (h.e_version == 1)

unfoldable pub has_sizes : Ehdr → Bool
has_sizes h = leb sizeof_ehdr h.e_ehsize && (h.e_phentsize == sizeof_phdr)
