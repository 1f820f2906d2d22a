-- ===== src/Stage2/Kb/Keys.antt =====
-- What stage2/16/kb.c makes of the codes that the keyboard sends.
use biefircate.Prelude.{
  ℕ, ◌≤◌, ◌≡◌, inl, inr, refl, ◌∙◌, ap, sym, subst₂, Bool, true, false, ◌||◌, none, some, List, [],
  ◌∷◌, arith, ◌==◌, if◌then◌else◌, Bool-cases, Option-cases,
}
use biefircate.Stage2.Kb.{Bda, next_tail, enqueue, status_key, key_of, key_in, handle_code}
use biefircate.Stage2.Kb.Buffer.{Holds, IsQueue, IsSlot, queued, enqueue-Holds}

abbrev pub mem : ℕ → List ℕ → Bool
mem x [] = false
mem x (y ∷ ys) = x == y || mem x ys

-- The codes that `handle_code` has a label of their own for: the modifier and lock keys, down and
-- up, and the overrun.
abbrev pub is_status : ℕ → Bool
is_status code = mem code (
    0x2a ∷ 0xaa ∷ 0x36 ∷ 0xb6 ∷ 0x1d ∷ 0x9d ∷ 0x38 ∷ 0xb8 ∷ 0x3a ∷ 0xba ∷ 0x45 ∷ 0xc5 ∷ 0x46 ∷ 0xc6
    ∷ 0xff ∷ [])

abbrev pub Same : Bda → Bda → Type 0
Same b b' =
    (b'.kb_buf_head ≡ b.kb_buf_head)
    × (b'.kb_buf_tail ≡ b.kb_buf_tail)
    × (b'.kb_buf_start ≡ b.kb_buf_start)
    × (b'.kb_buf_end ≡ b.kb_buf_end)
    × (b'.word ≡ b.word)

status_key-none : (code : ℕ) (b : Bda) → is_status code ≡ false → status_key code b ≡ none
unfolding status_key
status_key-none code b h = ground arith

status_key-some :
    (code : ℕ) (b : Bda) → is_status code ≡ true → (b' : Bda) × (status_key code b ≡ some b')
unfolding status_key
status_key-some code b h = elim (Option-cases (status_key code b)) [
  | inl e ↦ absurd (ground arith)
  | inr found ↦ found
]

status_key-Same : (code : ℕ) (b b' : Bda) → status_key code b ≡ some b' → Same b b'
unfolding status_key
status_key-Same code b b' h = ground arith

module _ (b b' : Bda) (same : Same b b') where
  next_tail-Same : (p : ℕ) → next_tail b' p ≡ next_tail b p
  unfolding next_tail
  next_tail-Same p = ground (arith, same)

  IsSlot-Same : (p p' : ℕ) → p' ≡ p → IsSlot b p → IsSlot b' p'
  IsSlot-Same p p' e s = omega (arith, same)

  IsQueue-Same : (p tail : ℕ) (keys : List ℕ) → IsQueue b p tail keys → IsQueue b' p tail keys
  IsQueue-Same p tail [] q = q
  IsQueue-Same p tail (k ∷ ks) (here, at, rest) = (
    here,
    ap (λ f. f p) same.4 ∙ at,
    rw (next_tail-Same p) (IsQueue-Same (next_tail b p) tail ks rest),
  )

  Holds-Same : (keys : List ℕ) → Holds b keys → Holds b' keys
  Holds-Same keys h = record {
    end_in = omega (arith, same, h.end_in);
    head_slot = IsSlot-Same b.kb_buf_head b'.kb_buf_head same.0 h.head_slot;
    tail_slot = IsSlot-Same b.kb_buf_tail b'.kb_buf_tail same.1 h.tail_slot;
    queue =
        subst₂ (λ p t. IsQueue b' p t keys) (sym same.0) (sym same.1)
          (IsQueue-Same b.kb_buf_head b.kb_buf_tail keys h.queue);
  }

module _ (code : ℕ) (b : Bda) where
  handle_code-some : (b' : Bda) → status_key code b ≡ some b' → handle_code code b ≡ b'
  unfolding handle_code
  handle_code-some b' e = rw (e, handle_code)

  handle_code-none :
      status_key code b ≡ none → handle_code code b ≡ enqueue (key_of code b.kb_stat1) b
  unfolding handle_code
  handle_code-none e = rw (e, handle_code)

-- Handling a code keeps the keyboard buffer a queue. A modifier or lock key, down or up, and the
-- overrun code leave its content; any other code puts its key code behind what the buffer held,
-- unless that key code is 0 or all slots but one are in use.
pub handle_code-Holds :
    (code : ℕ) (b : Bda) (keys : List ℕ)
    → Holds b keys
    → Holds
        (handle_code code b)
        (if is_status code then keys else queued b (key_of code b.kb_stat1) keys)
handle_code-Holds code b keys h = elim (Bool-cases (is_status code)) [
  | inl e ↦
      let (b', found) = status_key-some code b e in
      rw (e, handle_code-some code b b' found)
        (Holds-Same b b' (status_key-Same code b b' found) keys h)
  | inr e ↦
      rw (e, handle_code-none code b (status_key-none code b e))
        (enqueue-Holds b (key_of code b.kb_stat1) keys h)
]

key_of-up : (code stat1 : ℕ) → 0x80 ≤ code → key_of code stat1 ≡ 0
unfolding key_of key_in
key_of-up code stat1 h = ground arith

enqueue-zero : (b : Bda) → enqueue 0 b ≡ b
unfolding enqueue
enqueue-zero b = refl

-- A key that goes up puts nothing into the buffer, and leaves all of its variables.
pub handle_code-up : (code : ℕ) (b : Bda) → 0x80 ≤ code → Same b (handle_code code b)
handle_code-up code b h = elim (Bool-cases (is_status code)) [
  | inl e ↦
      let (b', found) = status_key-some code b e in
      rw (handle_code-some code b b' found) (status_key-Same code b b' found)
  | inr e ↦
      rw
        (
          handle_code-none code b (status_key-none code b e),
          key_of-up code b.kb_stat1 h,
          enqueue-zero b,
        )
        (refl, refl, refl, refl, refl)
]
