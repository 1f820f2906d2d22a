-- ===== src/Stage2/Kb/Modifiers.antt =====
-- The modifier and lock keys of stage2/16/kb.c.
use biefircate.Prelude.{ℕ, ◌<◌, ◌≡◌, refl, Bool, true, false, ◌&&◌, not, xor, arith, ◌==◌}
use biefircate.Prelude.Tables.{holds_below, holds_below-at}
use biefircate.Stage2.Kb.{
  Bda, status_key, handle_code, has, turn_on, turn_off, toggle, key_up, kb_k_lshft, kb_k_rshft,
  kb_k_ctl, kb_k_alt, kb_k_caplk, kb_k_numlk, kb_k_scllk,
}

-- The bit laws that the status byte needs, for a mask.
abbrev masks_well : ℕ → ℕ → Bool
masks_well mask s =
    has mask (turn_on mask s)
    && (not (has mask (turn_off mask s)) && (turn_off mask (turn_on mask s) == turn_off mask s))

-- The modifier keys.
pub data Modifier : Type 0 where
  lshft rshft ctl alt : Modifier

abbrev pub code_of : Modifier → ℕ
code_of lshft = kb_k_lshft
code_of rshft = kb_k_rshft
code_of ctl = kb_k_ctl
code_of alt = kb_k_alt

abbrev pub mask_of : Modifier → ℕ
mask_of lshft = 0x02
mask_of rshft = 0x01
mask_of ctl = 0x04
mask_of alt = 0x08

-- A modifier key sets its bit of the status byte when it goes down and clears it when it goes up,
-- and leaves the other bits and the other status byte.
pub handle_code_modifier :
    (m : Modifier) (b : Bda)
    → b.kb_stat1 < 256
    → let down = handle_code (code_of m) b in
      let up = handle_code (key_up (code_of m)) b in
      (has (mask_of m) down.kb_stat1 ≡ true)
      × (has (mask_of m) up.kb_stat1 ≡ false)
      × (turn_off (mask_of m) down.kb_stat1 ≡ turn_off (mask_of m) b.kb_stat1)
      × (up.kb_stat1 ≡ turn_off (mask_of m) b.kb_stat1)
      × (down.kb_stat2 ≡ b.kb_stat2)
      × (up.kb_stat2 ≡ b.kb_stat2)
unfolding handle_code status_key holds_below
handle_code_modifier lshft b h =
    let law = holds_below-at (masks_well 0x02) 256 b.kb_stat1 h refl in
    (ground (arith, law), ground (arith, law), ground (arith, law), refl, refl, refl)
handle_code_modifier rshft b h =
    let law = holds_below-at (masks_well 0x01) 256 b.kb_stat1 h refl in
    (ground (arith, law), ground (arith, law), ground (arith, law), refl, refl, refl)
handle_code_modifier ctl b h =
    let law = holds_below-at (masks_well 0x04) 256 b.kb_stat1 h refl in
    (ground (arith, law), ground (arith, law), ground (arith, law), refl, refl, refl)
handle_code_modifier alt b h =
    let law = holds_below-at (masks_well 0x08) 256 b.kb_stat1 h refl in
    (ground (arith, law), ground (arith, law), ground (arith, law), refl, refl, refl)

-- The lock keys, with the bits of the two status bytes that show a lock active and its key down.
pub data Lock : Type 0 where
  caplk numlk scllk : Lock

abbrev pub lock_code : Lock → ℕ
lock_code caplk = kb_k_caplk
lock_code numlk = kb_k_numlk
lock_code scllk = kb_k_scllk

abbrev pub lock_mask : Lock → ℕ
lock_mask caplk = 0x40
lock_mask numlk = 0x20
lock_mask scllk = 0x10

abbrev toggles_well : ℕ → ℕ → Bool
toggles_well mask s =
    xor (has mask (toggle mask s)) (has mask s) && (toggle mask (toggle mask s) == s)

-- A lock key that goes down turns its lock on if it was off and off if it was on; when it goes up
-- the lock stays. Two strokes leave the status byte as it was.
pub handle_code_lock :
    (l : Lock) (b : Bda)
    → b.kb_stat1 < 256
    → let down = handle_code (lock_code l) b in
      let up = handle_code (key_up (lock_code l)) down in
      (xor (has (lock_mask l) down.kb_stat1) (has (lock_mask l) b.kb_stat1) ≡ true)
      × (up.kb_stat1 ≡ down.kb_stat1)
      × ((handle_code (lock_code l) up).kb_stat1 ≡ b.kb_stat1)
unfolding handle_code status_key holds_below xor
handle_code_lock caplk b h =
    let law = holds_below-at (toggles_well 0x40) 256 b.kb_stat1 h refl in
    (ground (arith, law), refl, ground (arith, law))
handle_code_lock numlk b h =
    let law = holds_below-at (toggles_well 0x20) 256 b.kb_stat1 h refl in
    (ground (arith, law), refl, ground (arith, law))
handle_code_lock scllk b h =
    let law = holds_below-at (toggles_well 0x10) 256 b.kb_stat1 h refl in
    (ground (arith, law), refl, ground (arith, law))
