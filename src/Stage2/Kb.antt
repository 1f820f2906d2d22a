-- ===== src/Stage2/Kb.antt =====
-- stage2/16/kb.c: the keyboard interrupt. The variables of the BIOS data area that it uses are the
-- record `Bda`; `word` is the 16-bit word at an offset of the segment BDA_SEG, where the keyboard
-- buffer lies.
pub mod Maps
pub mod Buffer
pub mod Keys
pub mod Modifiers
pub mod Letters
pub mod Irq
mod Tests
use biefircate.Prelude.{
  ℕ, zero, suc, ◌+◌, ◌-◌, ◌*◌, ◌^◌, ◌%◌, bit_and, bit_or, bit_xor, Bool, true, false, not, ◌&&◌,
  ◌||◌, Option, none, some, List, [], ◌∷◌, ◌++◌, length, get_or, ltb, leb, ◌==◌, ◌!=◌,
  if◌then◌else◌,
}
use biefircate.Prelude.Words.{u8, u16, sub_w}
use Maps.{no_shift_map, shift_map, ctl_map, alt_map}

pub record Bda : Type 0 where
  pub kb_stat1 : ℕ
  pub kb_stat2 : ℕ
  pub kb_buf_head : ℕ
  pub kb_buf_tail : ℕ
  pub kb_buf_start : ℕ
  pub kb_buf_end : ℕ
  pub word : ℕ → ℕ

-- Scan codes.
abbrev pub kb_k_ctl : ℕ
kb_k_ctl = 0x1d

abbrev pub kb_k_lshft : ℕ
kb_k_lshft = 0x2a

abbrev pub kb_k_rshft : ℕ
kb_k_rshft = 0x36

abbrev pub kb_k_alt : ℕ
kb_k_alt = 0x38

abbrev pub kb_k_caplk : ℕ
kb_k_caplk = 0x3a

abbrev pub kb_k_numlk : ℕ
kb_k_numlk = 0x45

abbrev pub kb_k_scllk : ℕ
kb_k_scllk = 0x46

abbrev pub kb_r_overrun : ℕ
kb_r_overrun = 0xff

-- `code | KB_K_KEY_UP`, for a code below 0x80.
abbrev pub key_up : ℕ → ℕ
key_up code = bit_or code 0x80

-- `stat |= mask`, `stat &= ~mask` and `stat ^= mask` on a byte.
abbrev pub turn_on : ℕ → ℕ → ℕ
turn_on mask stat = bit_or stat mask

abbrev pub turn_off : ℕ → ℕ → ℕ
turn_off mask stat = bit_and stat (255 - mask)

abbrev pub toggle : ℕ → ℕ → ℕ
toggle mask stat = bit_xor stat mask

-- `(stat & mask) != 0`.
abbrev pub has : ℕ → ℕ → Bool
has mask stat = bit_and stat mask != 0

-- The labels of `handle_code` that change a status byte or do nothing, with the state that they
-- leave; `none` for any other code.
unfoldable pub status_key : ℕ → Bda → Option Bda
status_key code b =
    if code == kb_r_overrun
    then some b
    else if code == kb_k_lshft
    then some (record b { kb_stat1 = turn_on 0x02 b.kb_stat1 })
    else if code == key_up kb_k_lshft
    then some (record b { kb_stat1 = turn_off 0x02 b.kb_stat1 })
    else if code == kb_k_rshft
    then some (record b { kb_stat1 = turn_on 0x01 b.kb_stat1 })
    else if code == key_up kb_k_rshft
    then some (record b { kb_stat1 = turn_off 0x01 b.kb_stat1 })
    else if code == kb_k_ctl
    then some (record b { kb_stat1 = turn_on 0x04 b.kb_stat1 })
    else if code == key_up kb_k_ctl
    then some (record b { kb_stat1 = turn_off 0x04 b.kb_stat1 })
    else if code == kb_k_alt
    then some (record b { kb_stat1 = turn_on 0x08 b.kb_stat1 })
    else if code == key_up kb_k_alt
    then some (record b { kb_stat1 = turn_off 0x08 b.kb_stat1 })
    else if code == kb_k_caplk
    then some (record b { kb_stat1 = toggle 0x40 b.kb_stat1; kb_stat2 = turn_on 0x40 b.kb_stat2 })
    else if code == key_up kb_k_caplk
    then some (record b { kb_stat2 = turn_off 0x40 b.kb_stat2 })
    else if code == kb_k_numlk
    then some (record b { kb_stat1 = toggle 0x20 b.kb_stat1; kb_stat2 = turn_on 0x20 b.kb_stat2 })
    else if code == key_up kb_k_numlk
    then some (record b { kb_stat2 = turn_off 0x20 b.kb_stat2 })
    else if code == kb_k_scllk
    then some (record b { kb_stat1 = toggle 0x10 b.kb_stat1; kb_stat2 = turn_on 0x10 b.kb_stat2 })
    else if code == key_up kb_k_scllk
    then some (record b { kb_stat2 = turn_off 0x10 b.kb_stat2 })
    else none

-- The labels for the keypad and for the letters.
abbrev pub is_keypad : ℕ → Bool
is_keypad code = leb 0x47 code && leb code 0x53

abbrev pub is_letter : ℕ → Bool
is_letter code =
    (leb 0x10 code && leb code 0x19)
    || ((leb 0x1e code && leb code 0x26) || (leb 0x2c code && leb code 0x32))

-- `shifted` on the way to `default`.
abbrev pub locked : ℕ → ℕ → Bool
locked code stat1 =
    if is_keypad code then has 0x20 stat1 else if is_letter code then has 0x40 stat1 else false

-- `if (code < X_MAX) key = x_map[code]`, with `key` 0 before.
unfoldable pub key_in : List ℕ → ℕ → ℕ
key_in table code = if ltb code (length table) then get_or table code 0 else 0

-- `key` as the `default` branch leaves it.
unfoldable pub key_of : ℕ → ℕ → ℕ
key_of code stat1 =
    let shifted = locked code stat1 in
    if has 0x08 stat1
    then u16 (key_in alt_map code * 2 ^ 8)
    else if has 0x04 stat1
    then key_in ctl_map code
    else if (if has 0x03 stat1 then not shifted else shifted)
    then key_in shift_map code
    else key_in no_shift_map code

-- Where the tail goes from `tail`: round the buffer's end if no word fits behind it.
unfoldable pub next_tail : Bda → ℕ → ℕ
next_tail b tail =
    let new_tail = u16 (tail + 2) in
    if ltb (sub_w 16 b.kb_buf_end new_tail) 2 then b.kb_buf_start else new_tail

-- What follows the `switch`: `poke(BDA_SEG, old_tail, key)`, unless the buffer is full.
unfoldable pub enqueue : ℕ → Bda → Bda
enqueue key b =
    if key == 0
    then b
    else let new_tail = next_tail b b.kb_buf_tail in
      if new_tail == b.kb_buf_head then b else record b {
        kb_buf_tail = new_tail;
        word = λ p. if p == b.kb_buf_tail then key else b.word p;
      }

-- `handle_code(code)`.
unfoldable pub handle_code : ℕ → Bda → Bda
handle_code code b = elim (status_key code b) [
  | some b' ↦ b'
  | none ↦ enqueue (key_of code b.kb_stat1) b
]

-- What the handler does, in order: it waits, from one count of the reads of KB_STA to another, writes or
-- reads an I/O port, and handles a code.
pub data Event : Type 0 where
  waited : ℕ → ℕ → Event
  outp : ℕ → ℕ → Event
  inp : ℕ → Event
  handled : ℕ → Event

-- `wait_kb_in_buf_clear()` with `cnt - 1` rounds left: `sta i` is what the `i`-th read of KB_STA
-- gives, and the result is the number of reads so far.
unfoldable pub wait_rounds : (ℕ → ℕ) → ℕ → ℕ → ℕ
wait_rounds sta zero i = i
wait_rounds sta (suc left) i =
    let rest = wait_rounds sta left (i + 1) in if has 0x02 (sta i) then rest else i + 1

-- `cnt` starts at 0, so the first `--cnt` makes it 0xffff.
abbrev pub wait_max : ℕ
wait_max = 0xffff

unfoldable pub wait_kb_in_buf_clear : (ℕ → ℕ) → ℕ → ℕ
wait_kb_in_buf_clear sta i = wait_rounds sta wait_max i

-- The reads of KB_STA so far, what has been done, and the variables.
pub record Handled : Type 0 where
  pub reads : ℕ
  pub trace : List Event
  pub bda : Bda

abbrev pub log : Event → Handled → Handled
log e h = record h { trace = h.trace ++ e ∷ [] }

abbrev pub wait_clear : (ℕ → ℕ) → Handled → Handled
wait_clear sta h =
    let reads = wait_kb_in_buf_clear sta h.reads in
    record (log (Event.waited h.reads reads) h) { reads = reads }

-- `snd_sta(cmd)`.
unfoldable pub snd_sta : (ℕ → ℕ) → ℕ → Handled → Handled
snd_sta sta cmd h = log (Event.outp 0x64 cmd) (wait_clear sta h)

-- `handle_code(inp(KB_PORT_A))`, with `code` what the read gives.
abbrev pub handle_input : ℕ → Handled → Handled
handle_input code h = record (log (Event.handled code) (log (Event.inp 0x60) h)) {
  bda = handle_code code h.bda;
}

-- `irq1_impl()`.
unfoldable pub irq1_impl : (ℕ → ℕ) → ℕ → Bda → Handled
irq1_impl sta code b = snd_sta sta 0xae (
    log (Event.outp 0x20 0x20) (
      handle_input code
        (wait_clear sta (snd_sta sta 0xad (record { reads = 0; trace = []; bda = b })))))
