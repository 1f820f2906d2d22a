-- ===== src/Stage1/Rimg/Place.antt =====
-- stage1/pci.c: get_rimg, which puts an option ROM image where real mode code can run it.
pub mod Copy
mod Tests
use biefircate.Prelude.{
  ℕ, ◌+◌, ◌-◌, ◌*◌, ◌/◌, ◌^◌, ◌%◌, Bool, true, false, ◌&&◌, Option, none, some, ltb, leb, ◌==◌,
  ◌!=◌, if◌then◌else◌, Outcome, ok, ◌>>=◌,
}
use biefircate.Prelude.Words.{u32, sub_w}
use biefircate.Bparams.{PciDev}
use biefircate.Stage1.Bmem
use biefircate.Stage1.Bmem.{kibyte, para_size, bmem_max_addr, bmem_alloc, bmem_alloc_boottime}
use biefircate.Stage1.Rimg.{hkibyte}

-- The fields of `rimg_pcir_t` that `get_rimg` reads.
pub record Pcir : Type 0 where
  pub pcir_rev : ℕ
  pub max_rt_sz_hkib : ℕ

-- Base memory allocation, and memory's bytes by their addresses.
pub record State : Type 0 where
  pub bmem : Bmem.State
  pub byte : ℕ → ℕ

-- `memcpy(dst, src, n)`.
unfoldable pub memcpy : (ℕ → ℕ) → ℕ → ℕ → ℕ → ℕ → ℕ
memcpy byte dst src n x = if leb dst x && ltb x (dst + n) then byte (src + (x - dst)) else byte x

-- `addr_to_rm_seg(p)` and `ptr_to_rm_seg(p)`.
abbrev pub addr_to_rm_seg : ℕ → ℕ
addr_to_rm_seg p = p / para_size % 2 ^ 16

abbrev pub rt_size : Pcir → ℕ
rt_size p = u32 (p.max_rt_sz_hkib * hkibyte)

-- The image is in base memory already, at a multiple of 512.
unfoldable pub is_in_place : ℕ → ℕ → Bool
is_in_place rimg sz = leb rimg (sub_w 64 bmem_max_addr sz) && (rimg % hkibyte == 0)

-- The address where the image is for its initialization.
unfoldable pub place_image : ℕ → ℕ → State → Outcome (ℕ × State)
place_image rimg sz s =
    if is_in_place rimg sz
    then ok (rimg, s)
    else bmem_alloc_boottime s.bmem sz hkibyte >>= λ (rimg_copy, b).
        ok (rimg_copy, record { bmem = b; byte = memcpy s.byte rimg_copy rimg sz })

-- Where the image has another size at run time.
unfoldable pub get_shrinking : PciDev → ℕ → ℕ → ℕ → State → Outcome (PciDev × State)
get_shrinking bd rimg sz rt_sz s = place_image rimg sz s >>= λ (at, s1).
    bmem_alloc s1.bmem rt_sz hkibyte >>= λ (rimg_rt, b). ok (
      record bd {
        rimg_sz = sz;
        rimg_seg = addr_to_rm_seg at;
        rimg_rt_seg = addr_to_rm_seg rimg_rt;
      },
      record s1 { bmem = b },
    )

-- Where it stays where it is put.
unfoldable pub get_whole : PciDev → ℕ → ℕ → State → Outcome (PciDev × State)
get_whole bd rimg sz s = bmem_alloc s.bmem sz (2 * kibyte) >>= λ (rimg_copy, b). ok (
  record bd {
    rimg_sz = sz;
    rimg_seg = addr_to_rm_seg rimg_copy;
    rimg_rt_seg = addr_to_rm_seg rimg_copy;
  },
  record { bmem = b; byte = memcpy s.byte rimg_copy rimg sz },
)

-- The image has a size of its own for run time.
unfoldable pub is_shrinking : ℕ → Pcir → Bool
is_shrinking sz p = leb 3 p.pcir_rev && (rt_size p != sz)

-- `get_rimg(bd, rimg, sz, pcir)`.
unfoldable pub get_rimg : PciDev → ℕ → ℕ → Option Pcir → State → Outcome (PciDev × State)
get_rimg bd rimg sz pcir s = elim pcir [
  | none ↦ ok (
    record bd { rimg_sz = sz; rimg_seg = addr_to_rm_seg rimg; rimg_rt_seg = addr_to_rm_seg rimg },
    s,
  )
  | some p ↦ elim (is_shrinking sz p) [
    | true ↦ get_shrinking bd rimg sz (rt_size p) s
    | false ↦ get_whole bd rimg sz s
  ]
]
