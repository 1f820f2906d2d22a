-- ===== src/Stage2/Main/Calls.antt =====
-- Every option ROM image is initialized once, and those of displays first.
use biefircate.Prelude.{
  ℕ, ◌+◌, ◌≡◌, ◌≢◌, inl, inr, refl, Bool, true, false, not, none, some, List, [], ◌∷◌, ◌++◌, arith,
  ◌==◌, if◌then◌else◌, Bool-cases, Option-cases, All,
}
use biefircate.Bparams.{Bparm, PciDev}
use biefircate.Stage2.Main.{
  Call, device_of, is_vga, do_init, init_call, rimg_init, hello, main_calls,
}

-- How many elements of a list pass a test.
unfoldable pub count {ℓ} : {A : Type ℓ} → (A → Bool) → List A → ℕ
count t [] = 0
count t (x ∷ xs) = (if t x then 1 else 0) + count t xs

count-append {ℓ} :
    {A : Type ℓ} (t : A → Bool) (xs ys : List A) → count t (xs ++ ys) ≡ count t xs + count t ys
unfolding count
count-append t [] ys = omega arith
count-append t (x ∷ xs) ys = omega (arith, count-append t xs ys)

-- The devices of the boot parameters that have an image.
unfoldable pub with_image : List Bparm → List PciDev
with_image [] = []
with_image (bp ∷ bps) =
    let rest = with_image bps in
    elim (device_of bp) [ none ↦ rest | some pd ↦ if pd.rimg_seg == 0 then rest else pd ∷ rest ]

-- What the loops do with the first parameter.
module _ (bp : Bparm) (bps : List Bparm) where
  rimg_init-none : (v : Bool) → device_of bp ≡ none → rimg_init (bp ∷ bps) v ≡ rimg_init bps v
  unfolding rimg_init
  rimg_init-none v e = rw (e, rimg_init) refl

  rimg_init-some :
      (v : Bool) (pd : PciDev)
      → device_of bp ≡ some pd
      → rimg_init (bp ∷ bps) v ≡ (
          if not (do_init v pd)
          then rimg_init bps v
          else if pd.rimg_seg == 0
          then rimg_init bps v
          else init_call pd ∷ rimg_init bps v)
  unfolding rimg_init
  rimg_init-some v pd e = rw (e, rimg_init) refl

  with_image-none : device_of bp ≡ none → with_image (bp ∷ bps) ≡ with_image bps
  unfolding with_image
  with_image-none e = rw (e, with_image) refl

  with_image-some :
      (pd : PciDev)
      → device_of bp ≡ some pd
      → with_image (bp ∷ bps) ≡ (if pd.rimg_seg == 0 then with_image bps else pd ∷ with_image bps)
  unfolding with_image
  with_image-some pd e = rw (e, with_image) refl

rimg_init-count :
    (t : Call → Bool) (bps : List Bparm)
    → count t (rimg_init bps true) + count t (rimg_init bps false)
      ≡ count (λ pd. t (init_call pd)) (with_image bps)
unfolding count with_image rimg_init
rimg_init-count t [] = refl
rimg_init-count t (bp ∷ bps) =
    let rest = rimg_init-count t bps in
    elim (Option-cases (device_of bp)) [
      | inl e ↦
          rw (rimg_init-none bp bps true e, rimg_init-none bp bps false e, with_image-none bp bps e)
            rest
      | inr (pd, e) ↦
          rw
            (
              rimg_init-some bp bps true pd e,
              rimg_init-some bp bps false pd e,
              with_image-some bp bps pd e,
            )
            (elim (Bool-cases (is_vga pd)) [
              | inl v ↦ elim (Bool-cases (pd.rimg_seg == 0)) [
                | inl z ↦ rw (v, z) rest
                | inr z ↦ rw (v, z) (omega (arith, rest))
              ]
              | inr v ↦ elim (Bool-cases (pd.rimg_seg == 0)) [
                | inl z ↦ rw (v, z) rest
                | inr z ↦ rw (v, z) (omega (arith, rest))
              ]
            ])
    ]

-- The call initializes the image of a device of this kind.
abbrev pub IsCallFor : Bool → Call → Type 0
IsCallFor vga c = (pd : PciDev) × (c ≡ init_call pd) × (is_vga pd ≡ vga) × (pd.rimg_seg ≢ 0)

rimg_init-IsCallFor : (v : Bool) (bps : List Bparm) → All (IsCallFor v) (rimg_init bps v)
unfolding rimg_init
rimg_init-IsCallFor v [] = tt
rimg_init-IsCallFor v (bp ∷ bps) =
    let rest = rimg_init-IsCallFor v bps in
    elim (Option-cases (device_of bp)) [
      | inl e ↦ rw (rimg_init-none bp bps v e) rest
      | inr (pd, e) ↦ rw (rimg_init-some bp bps v pd e) (elim (Bool-cases (do_init v pd)) [
        | inl d ↦ elim (Bool-cases (pd.rimg_seg == 0)) [
          | inl z ↦ rw (d, z) rest
          | inr z ↦ rw (d, z) ((pd, refl, ground arith, ground arith), rest)
        ]
        | inr d ↦ rw d rest
      ])
    ]

-- `stage2_main` calls the initialization code of each option ROM image of the boot parameters exactly
-- once, and `hello16` once (each way to tell calls apart finds as many); the images of displays come
-- before `hello16`, and the others after it.
pub main_calls_lem :
    (bps : List Bparm) (rm16_cs hello16 : ℕ)
    → ((t : Call → Bool)
        → count t (main_calls bps rm16_cs hello16)
          ≡ count (λ pd. t (init_call pd)) (with_image bps)
            + (if t (hello rm16_cs hello16) then 1 else 0))
      × (before : List Call) × (after : List Call) × (main_calls bps rm16_cs hello16
          ≡ before ++ hello rm16_cs hello16 ∷ after)
      × All (IsCallFor true) before
      × All (IsCallFor false) after
unfolding main_calls count
main_calls_lem bps rm16_cs hello16 = (
  λ t.
      let sum = rimg_init-count t bps in
      let split =
        count-append t (rimg_init bps true) (hello rm16_cs hello16 ∷ rimg_init bps false) in
      omega (arith, sum, split),
  rimg_init bps true,
  rimg_init bps false,
  refl,
  rimg_init-IsCallFor true bps,
  rimg_init-IsCallFor false bps,
)
