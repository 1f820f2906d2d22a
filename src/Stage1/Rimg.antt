-- ===== src/Stage1/Rimg.antt =====
-- stage1/pci.c and pci.h: finding an option ROM image and its PCI Data Structure. The image is a
-- list of bytes, and a pointer into it an index; a pointer that may be NULL is an option.
pub mod Pcir
pub mod DevIds
pub mod Place
pub mod Tests
use biefircate.Prelude.{
  ℕ, zero, suc, ◌+◌, ◌-◌, ◌*◌, ◌/◌, ◌^◌, ◌%◌, Bool, true, false, ◌&&◌, ◌||◌, Option, none, some,
  List, ltb, leb, ◌==◌, ◌!=◌, if◌then◌else◌, Outcome, ok, stop, Stop, ◌>>=◌,
}
use biefircate.Prelude.Words.{sub_w}
use biefircate.Bparams.{magic32}
use biefircate.Stage1.Util.{read8, read16, read32, compute_cksum}

-- HKIBYTE.
abbrev pub hkibyte : ℕ
hkibyte = 512

-- PCIR_MIN_SZ and PCIR_SIG_PCIR.
abbrev pub pcir_min_sz : ℕ
pcir_min_sz = 22

abbrev pub pcir_sig_pcir : ℕ
pcir_sig_pcir = magic32 b'P' b'C' b'I' b'R'

-- The fields of `rimg_hdr_t`, for an image at index 0.
abbrev pub hdr_sig : List ℕ → Outcome ℕ
hdr_sig rimg = read16 rimg 0

abbrev pub hdr_rimg_sz_hkib_legacy : List ℕ → Outcome ℕ
hdr_rimg_sz_hkib_legacy rimg = read8 rimg 2

abbrev pub hdr_pcir_off : List ℕ → Outcome ℕ
hdr_pcir_off rimg = read16 rimg 0x18

-- The fields of `rimg_pcir_t` that the code reads, for a structure at index `p`.
abbrev pub pcir_sig : List ℕ → ℕ → Outcome ℕ
pcir_sig rimg p = read32 rimg p

abbrev pub pcir_dev_ids_off : List ℕ → ℕ → Outcome ℕ
pcir_dev_ids_off rimg p = read16 rimg (p + 8)

abbrev pub pcir_size : List ℕ → ℕ → Outcome ℕ
pcir_size rimg p = read16 rimg (p + 10)

abbrev pub pcir_rev : List ℕ → ℕ → Outcome ℕ
pcir_rev rimg p = read8 rimg (p + 12)

abbrev pub pcir_rimg_sz_hkib : List ℕ → ℕ → Outcome ℕ
pcir_rimg_sz_hkib rimg p = read16 rimg (p + 16)

-- The last part of `rimg_find_pcir`, once the size of the structure is known.
unfoldable pub check_image : List ℕ → ℕ → ℕ → ℕ → Outcome (Option ℕ)
check_image rimg rom_sz pcir_off pcir_sz = pcir_rimg_sz_hkib rimg pcir_off >>= λ rimg_sz_hkib.
    if rimg_sz_hkib == 0 || ltb (rom_sz / hkibyte) rimg_sz_hkib
    then ok none
    else let rimg_sz = rimg_sz_hkib * hkibyte in
      if ltb (sub_w 64 rimg_sz pcir_min_sz) pcir_off || ltb (sub_w 64 rimg_sz pcir_off) pcir_sz
      then ok none
      else compute_cksum rimg 0 rimg_sz >>= λ cksum. ok (if cksum != 0 then none else some pcir_off)

-- The part that tests the structure.
unfoldable pub check_pcir : List ℕ → ℕ → ℕ → Outcome (Option ℕ)
check_pcir rimg rom_sz pcir_off = pcir_sig rimg pcir_off >>= λ sig.
    if sig != pcir_sig_pcir
    then ok none
    else pcir_size rimg pcir_off >>= λ pcir_sz.
        if ltb pcir_sz pcir_min_sz || ltb (sub_w 64 rom_sz pcir_off) pcir_sz
        then ok none
        else check_image rimg rom_sz pcir_off pcir_sz

-- `rimg_find_pcir(rimg, rom_sz)`.
unfoldable pub rimg_find_pcir : List ℕ → ℕ → Outcome (Option ℕ)
rimg_find_pcir rimg rom_sz =
    if ltb rom_sz hkibyte
    then ok none
    else hdr_sig rimg >>= λ sig.
        if sig != 0xaa55
        then ok none
        else hdr_pcir_off rimg >>= λ pcir_off.
            if pcir_off == 0 || ltb (sub_w 64 rom_sz pcir_min_sz) pcir_off
            then ok none
            else check_pcir rimg rom_sz pcir_off

-- The loop of `rimg_pcir_find_dev_id_list`, from index `p`: whether the list ends before
-- `rimg_end`. As `p` grows with each round, `rimg_end` rounds are enough.
unfoldable pub list_ends : ℕ → List ℕ → ℕ → ℕ → Outcome Bool
list_ends zero rimg rimg_end p = stop Stop.out_of_fuel
list_ends (suc rounds) rimg rimg_end p =
    let rest = list_ends rounds rimg rimg_end (p + 2) in
    if leb rimg_end p || leb rimg_end (p + 1)
    then ok false
    else read8 rimg p >>= λ low.
        read8 rimg (p + 1) >>= λ high. if low != 0 || high != 0 then rest else ok true

-- `rimg_pcir_find_dev_id_list(pcir, rimg_end)`, for the structure at index `pcir`.
unfoldable pub rimg_pcir_find_dev_id_list : List ℕ → ℕ → ℕ → Outcome (Option ℕ)
rimg_pcir_find_dev_id_list rimg pcir rimg_end = pcir_rev rimg pcir >>= λ rev.
    if ltb rev 3
    then ok none
    else pcir_dev_ids_off rimg pcir >>= λ off.
        if off == 0
        then ok none
        else list_ends (rimg_end + 1) rimg rimg_end (pcir + off) >>= λ ends.
            ok (if ends then some (pcir + off) else none)

-- `rimg_find(rimg)`.
unfoldable pub rimg_find : List ℕ → Outcome ℕ
rimg_find rimg = hdr_sig rimg >>= λ sig.
    if sig != 0xaa55
    then ok 0
    else hdr_rimg_sz_hkib_legacy rimg >>= λ rimg_sz_hkib.
        if rimg_sz_hkib == 0 || ltb 0x7f rimg_sz_hkib
        then ok 0
        else compute_cksum rimg 0 (rimg_sz_hkib * hkibyte) >>= λ cksum.
            ok (if cksum != 0 then 0 else rimg_sz_hkib * hkibyte)
