-- ===== src/Stage2/Kb/Letters.antt =====
-- What stage2/16/kb.c makes of the letter keys.
use biefircate.Prelude.{
  ℕ, ◌/◌, ◌%◌, ◌<◌, ◌≡◌, inl, inr, refl, Bool, true, false, ◌&&◌, ◌||◌, not, xor, arith, leb, ◌==◌,
  if◌then◌else◌, Bool-cases,
}
use biefircate.Prelude.Tables.{holds_below, holds_below-at}
use biefircate.Stage2.Kb.{key_of, key_in, has, is_letter, is_keypad}
use biefircate.Stage2.Kb.Maps.{no_shift_map, shift_map}

abbrev pub is_upper : ℕ → Bool
is_upper key = leb b'A' (key % 256) && leb (key % 256) b'Z'

abbrev pub is_lower : ℕ → Bool
is_lower key = leb b'a' (key % 256) && leb (key % 256) b'z'

abbrev letters_well : ℕ → Bool
letters_well code =
    let small = key_in no_shift_map code in
    let capital = key_in shift_map code in
    not (is_letter code)
    || (is_lower small
        && not (is_upper small)
        && is_upper capital
        && not (is_lower capital)
        && (small / 256 == code)
        && (capital / 256 == code))

letters_table : holds_below 256 letters_well ≡ true
unfolding holds_below key_in
letters_table = refl

abbrev pub IsLetterPair : ℕ → ℕ → ℕ → Type 0
IsLetterPair code small capital =
    (is_lower small ≡ true)
    × (is_upper small ≡ false)
    × (is_upper capital ≡ true)
    × (is_lower capital ≡ false)
    × (small / 256 ≡ code)
    × (capital / 256 ≡ code)

IsLetterPair-of :
    (code small capital : ℕ)
    → (is_lower small
        && not (is_upper small)
        && is_upper capital
        && not (is_lower capital)
        && (small / 256 == code)
        && (capital / 256 == code))
      ≡ true
    → IsLetterPair code small capital
IsLetterPair-of code small capital h =
    (ground arith, ground arith, ground arith, ground arith, ground arith, ground arith)

is_letter-lt : (code : ℕ) → is_letter code ≡ true → code < 256
is_letter-lt code h = ground arith

is_letter-keypad : (code : ℕ) → is_letter code ≡ true → is_keypad code ≡ false
is_letter-keypad code h = ground arith

letter_pair :
    (code : ℕ)
    → is_letter code ≡ true
    → IsLetterPair code (key_in no_shift_map code) (key_in shift_map code)
letter_pair code h =
    let law = holds_below-at letters_well 256 code (is_letter-lt code h) letters_table in
    IsLetterPair-of code (key_in no_shift_map code) (key_in shift_map code) (rw h at law)

-- The two locks and Shift choose between the two tables.
key_of-choice :
    (code stat1 : ℕ)
    → is_letter code ≡ true
    → has 0x08 stat1 ≡ false
    → has 0x04 stat1 ≡ false
    → key_of code stat1 ≡ (
        if xor (has 0x40 stat1) (has 0x03 stat1)
        then key_in shift_map code
        else key_in no_shift_map code)
unfolding key_of xor
key_of-choice code stat1 letter no_alt no_ctl =
    rw (is_letter-keypad code letter, letter, no_alt, no_ctl)
      (pick (has 0x40 stat1) (has 0x03 stat1))
  where
    pick :
        (caps shift : Bool)
        → (if (if shift then not caps else caps)
            then key_in shift_map code
            else key_in no_shift_map code)
          ≡ (if xor caps shift then key_in shift_map code else key_in no_shift_map code)
    pick true true = refl
    pick true false = refl
    pick false true = refl
    pick false false = refl

-- With neither Alt nor Ctrl down, a letter key gives a capital letter if one of Caps Lock and Shift
-- is on but not both, and otherwise a small one; the high byte of the key code is the scan code.
pub key_of_letter :
    (code stat1 : ℕ)
    → is_letter code ≡ true
    → has 0x08 stat1 ≡ false
    → has 0x04 stat1 ≡ false
    → let key = key_of code stat1 in
      let capital = xor (has 0x40 stat1) (has 0x03 stat1) in
      (is_upper key ≡ capital) × (is_lower key ≡ not capital) × (key / 256 ≡ code)
key_of_letter code stat1 letter no_alt no_ctl =
    let choice = key_of-choice code stat1 letter no_alt no_ctl in
    let pair = letter_pair code letter in
    elim (Bool-cases (xor (has 0x40 stat1) (has 0x03 stat1))) [
      | inl e ↦ rw (choice, e) (pair.2, pair.3, pair.5)
      | inr e ↦ rw (choice, e) (pair.1, pair.0, pair.4)
    ]
