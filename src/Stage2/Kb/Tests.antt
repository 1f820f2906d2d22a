-- ===== src/Stage2/Kb/Tests.antt =====
-- Runs of the keyboard interrupt, and its theorems at concrete inputs.
use biefircate.Prelude.{ℕ, ◌≡◌, refl, true, false, xor, [], ◌∷◌, arith, ◌==◌, if◌then◌else◌}
use biefircate.Stage2.Kb.{
  Bda, status_key, key_of, key_in, next_tail, enqueue, handle_code, has, turn_off, key_up,
  kb_k_lshft, irq1_impl, Event, snd_sta, wait_kb_in_buf_clear, wait_rounds,
}
use biefircate.Stage2.Kb.Buffer.{Holds}
use biefircate.Stage2.Kb.Keys.{handle_code-Holds}
use biefircate.Stage2.Kb.Modifiers.{Modifier, Lock, handle_code_modifier, handle_code_lock}
use biefircate.Stage2.Kb.Irq.{IsWait, irq1_impl_lem}

-- The default buffer, 16 words at 0x40:0x1e, with room for 15 key codes.
abbrev empty : Bda
empty = record {
  kb_stat1 = 0x40;
  kb_stat2 = 0;
  kb_buf_head = 0x3c;
  kb_buf_tail = 0x3c;
  kb_buf_start = 0x1e;
  kb_buf_end = 0x3e;
  word = λ p. 0;
}

-- Caps Lock is on, so the key A gives a capital letter; the tail goes round the end.
abbrev one_key : Bda
one_key = handle_code 0x1e empty

typed :
    (one_key.kb_buf_tail ≡ 0x1e)
    × (one_key.word 0x3c ≡ 0x1e41)
    × ((handle_code 0x9e one_key).kb_buf_tail ≡ 0x1e)
unfolding handle_code status_key key_of key_in next_tail enqueue
typed = (refl, refl, refl)

empty-Holds : Holds empty []
empty-Holds = omega arith

handle_code-Holds_example : Holds (handle_code 0x1e empty) (0x1e41 ∷ [])
unfolding key_of key_in
handle_code-Holds_example = handle_code-Holds 0x1e empty [] empty-Holds

handle_code_modifier_example :
    let down = handle_code kb_k_lshft empty in
    let up = handle_code (key_up kb_k_lshft) empty in
    (has 0x02 down.kb_stat1 ≡ true)
    × (has 0x02 up.kb_stat1 ≡ false)
    × (turn_off 0x02 down.kb_stat1 ≡ turn_off 0x02 empty.kb_stat1)
    × (up.kb_stat1 ≡ turn_off 0x02 empty.kb_stat1)
    × (down.kb_stat2 ≡ empty.kb_stat2)
    × (up.kb_stat2 ≡ empty.kb_stat2)
handle_code_modifier_example = handle_code_modifier Modifier.lshft empty (omega arith)

handle_code_lock_example :
    let down = handle_code 0x3a empty in
    let up = handle_code (key_up 0x3a) down in
    (xor (has 0x40 down.kb_stat1) (has 0x40 empty.kb_stat1) ≡ true)
    × (up.kb_stat1 ≡ down.kb_stat1)
    × ((handle_code 0x3a up).kb_stat1 ≡ empty.kb_stat1)
handle_code_lock_example = handle_code_lock Lock.caplk empty (omega arith)

abbrev busy_once : ℕ → ℕ
busy_once i = if i == 0 then 2 else 0

runs_irq1_impl : (irq1_impl busy_once 0x1e empty).reads ≡ 4
unfolding irq1_impl snd_sta wait_kb_in_buf_clear wait_rounds
runs_irq1_impl = refl

irq1_impl_lem_example :
    (i j k : ℕ) × IsWait busy_once 0xffff 0 i
    × IsWait busy_once 0xffff i j
    × IsWait busy_once 0xffff j k
    × (irq1_impl busy_once 0x1e empty ≡ record {
      reads = k;
      trace =
          Event.waited 0 i
          ∷ Event.outp 0x64 0xad
          ∷ Event.waited i j
          ∷ Event.inp 0x60
          ∷ Event.handled 0x1e
          ∷ Event.outp 0x20 0x20
          ∷ Event.waited j k
          ∷ Event.outp 0x64 0xae
          ∷ [];
      bda = handle_code 0x1e empty;
    })
irq1_impl_lem_example = irq1_impl_lem busy_once 0x1e empty
