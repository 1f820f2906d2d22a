-- ===== src/Stage1/Load/Files.antt =====
-- What stage1/main.c relies on of the firmware: the documented behaviour of the UEFI file protocol and
-- of the page allocator.
use biefircate.Prelude.{
  ℕ, zero, suc, ◌+◌, ◌/◌, ◌^◌, ◌≤◌, ◌<◌, ◌≡◌, ◌⊎◌, refl, ap, ◌∙◌, Bool, false, ◌&&◌, ◌||◌, List, [],
  ◌∷◌, arith, ltb, leb, length, get_or, drop,
}
use biefircate.Stage1.Load.{Answer, Firmware}
use biefircate.Stage1.Load.Elf.{Phdr, word_at, sizeof_phdr, phdr_of, phdrs_of}

-- The `n` bytes of a file from `pos` on.
unfoldable pub slice : (ℕ → ℕ) → ℕ → ℕ → List ℕ
slice file pos zero = []
slice file pos (suc n) = file pos ∷ slice file (pos + 1) n

pub length-slice : (file : ℕ → ℕ) (pos n : ℕ) → length (slice file pos n) ≡ n
unfolding slice
length-slice file pos zero = refl
length-slice file pos (suc n) = ap suc (length-slice file (pos + 1) n)

pub get_or-slice :
    (file : ℕ → ℕ) (pos n i : ℕ) → i < n → get_or (slice file pos n) i 0 ≡ file (pos + i)
unfolding slice
get_or-slice file pos zero i l = absurd (omega (arith, l))
get_or-slice file pos (suc n) zero l = ap file (omega arith)
get_or-slice file pos (suc n) (suc i) l =
    get_or-slice file (pos + 1) n i (omega (arith, l)) ∙ ap file (omega arith)

abbrev pub IsBytes : List ℕ → Type 0
IsBytes bs = (i : ℕ) → get_or bs i 0 < 256

pub slice-IsBytes :
    (file : ℕ → ℕ) (pos n : ℕ) → ((x : ℕ) → file x < 256) → IsBytes (slice file pos n)
unfolding slice
slice-IsBytes file pos zero b i = omega arith
slice-IsBytes file pos (suc n) b zero = b pos
slice-IsBytes file pos (suc n) b (suc i) = slice-IsBytes file (pos + 1) n b i

drop-IsBytes : (n : ℕ) (bs : List ℕ) → IsBytes bs → IsBytes (drop n bs)
drop-IsBytes zero bs b = b
drop-IsBytes (suc n) [] b = b
drop-IsBytes (suc n) (x ∷ bs) b = drop-IsBytes n bs (λ i. b (suc i))

-- The offset of a program header is a word.
abbrev pub IsWord : ℕ → Type 0
IsWord n = n < 2 ^ 32

word_at-IsWord : (bs : List ℕ) (i : ℕ) → IsBytes bs → IsWord (word_at bs i)
word_at-IsWord bs i b = omega (arith, b i, b (i + 1), b (i + 2), b (i + 2 + 1))

abbrev pub AllWords : List Phdr → Type 0
AllWords [] = Unit
AllWords (p ∷ ps) = IsWord p.p_offset × AllWords ps

pub phdrs_of-AllWords : (n : ℕ) (bs : List ℕ) → IsBytes bs → AllWords (phdrs_of n bs)
unfolding phdrs_of phdr_of
phdrs_of-AllWords zero bs b = tt
phdrs_of-AllWords (suc n) bs b = (
  word_at-IsWord bs 4 b,
  phdrs_of-AllWords n (drop sizeof_phdr bs) (drop-IsBytes sizeof_phdr bs b),
)

-- The program's file holds `size` bytes, those of `file`; `position` is where it is read next, and
-- `allocated` says which pages are handed out. A file that is open is read from its start. A read gives
-- the next bytes, fewer at the end of the file. Pages that are allocated were not handed out before.
pub record IsLawful (F : Firmware) (file : ℕ → ℕ) (size : ℕ) (position : F.State → ℕ)
    (allocated : F.State → ℕ → Bool) : Type 0 where
  pub bytes : (x : ℕ) → file x < 256
  pub open_prog :
      (name : _) (s s' : F.State) → F.open_prog name s ≡ Answer.success tt s' → position s' ≡ 0
  pub file_info : (s s' : F.State) → F.file_info s ≡ Answer.success tt s' → position s' ≡ position s
  pub read :
      (n : ℕ) (s s' : F.State) (bs : List ℕ)
      → F.read n s ≡ Answer.success bs s'
      → (bs ≡ slice file (position s) (length bs))
        × ((length bs ≡ 0) ⊎ (position s + length bs ≤ size))
        × ((q : ℕ) → allocated s' q ≡ allocated s q)
  pub set_position :
      (pos : ℕ) (s s' : F.State)
      → F.set_position pos s ≡ Answer.success tt s'
      → (position s' ≡ pos) × ((q : ℕ) → allocated s' q ≡ allocated s q)
  pub allocate_pages :
      (paddr pages : ℕ) (s s' : F.State)
      → F.allocate_pages paddr pages s ≡ Answer.success tt s'
      → (q : ℕ)
      → (allocated s' q ≡ (allocated s q || (leb (paddr / 4096) q && ltb q (paddr / 4096 + pages))))
        × ((allocated s q && (leb (paddr / 4096) q && ltb q (paddr / 4096 + pages))) ≡ false)
