-- ===== src/Stage2/Kb/Buffer.antt =====
-- The keyboard buffer of stage2/16/kb.c is a bounded queue.
use biefircate.Prelude.{
  ℕ, ◌+◌, ◌-◌, ◌%◌, ◌^◌, ◌≤◌, ◌<◌, ◌≡◌, ◌≢◌, inl, inr, refl, false, List, [], ◌∷◌, ◌++◌, arith,
  ◌==◌, if◌then◌else◌, Bool-cases, leb, length, ◌*◌, ◌/◌, ◌↔◌, ap,
}
use biefircate.Stage2.Kb.{Bda, next_tail, enqueue}

-- A place of the buffer that holds a word.
pub record IsSlot (b : Bda) (p : ℕ) : Type 0 where
  pub from_start : b.kb_buf_start ≤ p
  pub fits : p + 2 ≤ b.kb_buf_end
  pub even : (p - b.kb_buf_start) % 2 ≡ 0

-- From `p` on to `tail` the buffer holds the key codes `keys`, oldest first.
abbrev pub IsQueue : Bda → ℕ → ℕ → List ℕ → Type 0
IsQueue b p tail [] = p ≡ tail
IsQueue b p tail (k ∷ ks) = (p ≢ tail) × (b.word p ≡ k) × IsQueue b (next_tail b p) tail ks

-- The variables describe a buffer, and it holds `keys`.
pub record Holds (b : Bda) (keys : List ℕ) : Type 0 where
  pub end_in : b.kb_buf_end < 2 ^ 16
  pub head_slot : IsSlot b b.kb_buf_head
  pub tail_slot : IsSlot b b.kb_buf_tail
  pub queue : IsQueue b b.kb_buf_head b.kb_buf_tail keys

next_tail-IsSlot : (b : Bda) (p : ℕ) → b.kb_buf_end < 2 ^ 16 → IsSlot b p → IsSlot b (next_tail b p)
unfolding next_tail
next_tail-IsSlot b p e s = ground arith

next_tail_injective :
    (b : Bda) (p q : ℕ)
    → b.kb_buf_end < 2 ^ 16
    → IsSlot b p
    → IsSlot b q
    → next_tail b p ≡ next_tail b q
    → p ≡ q
unfolding next_tail
next_tail_injective b p q e s t h = ground arith

-- Writing a word at the tail and moving the tail on appends to the queue.
abbrev put : Bda → ℕ → ℕ → Bda
put b tail key = record b {
  kb_buf_tail = next_tail b tail;
  word = λ p. if p == tail then key else b.word p;
}

next_tail-put : (b : Bda) (tail key p : ℕ) → next_tail (put b tail key) p ≡ next_tail b p
unfolding next_tail
next_tail-put b tail key p = refl

put-IsQueue :
    (b : Bda) (key p tail : ℕ) (ks : List ℕ)
    → b.kb_buf_end < 2 ^ 16
    → IsSlot b p
    → IsSlot b tail
    → p ≢ next_tail b tail
    → IsQueue b p tail ks
    → IsQueue (put b tail key) p (next_tail b tail) (ks ++ key ∷ [])
unfolding next_tail
put-IsQueue b key p tail [] e s t ne q = (ne, ground arith, ap (next_tail b) q)
put-IsQueue b key p tail (k ∷ ks) e s t ne (here, at, rest) = (
  ne,
  ground arith,
  put-IsQueue b key (next_tail b p) tail ks e (next_tail-IsSlot b p e s) t
      (λ same. here (next_tail_injective b p tail e s t same)) rest,
)

-- The words that the buffer has room for.
abbrev pub slots : Bda → ℕ
slots b = (b.kb_buf_end - b.kb_buf_start) / 2

-- How far it is from `p` round to `tail`.
abbrev distance : Bda → ℕ → ℕ → ℕ
distance b p tail = if leb p tail then tail - p else tail + 2 * slots b - p

distance-next_tail :
    (b : Bda) (p tail : ℕ)
    → b.kb_buf_end < 2 ^ 16
    → IsSlot b p
    → IsSlot b tail
    → p ≢ tail
    → distance b p tail ≡ 2 + distance b (next_tail b p) tail
unfolding next_tail
distance-next_tail b p tail e s t ne = ground arith

length-IsQueue :
    (b : Bda) (p tail : ℕ) (ks : List ℕ)
    → b.kb_buf_end < 2 ^ 16
    → IsSlot b p
    → IsSlot b tail
    → IsQueue b p tail ks
    → 2 * length ks ≡ distance b p tail
length-IsQueue b p tail [] e s t q = ground arith
length-IsQueue b p tail (k ∷ ks) e s t (here, at, rest) = omega (
  arith,
  distance-next_tail b p tail e s t here,
  length-IsQueue b (next_tail b p) tail ks e (next_tail-IsSlot b p e s) t rest,
)

-- The buffer is full when only one of its slots is left.
full_iff :
    (b : Bda) (keys : List ℕ)
    → Holds b keys
    → (next_tail b b.kb_buf_tail ≡ b.kb_buf_head) ↔ (length keys + 1 ≡ slots b)
unfolding next_tail
full_iff b keys h =
    let count =
      length-IsQueue b b.kb_buf_head b.kb_buf_tail keys h.end_in h.head_slot h.tail_slot h.queue in
    (
      λ e. ground (arith, count, h.head_slot, h.tail_slot),
      λ e. ground (arith, count, h.head_slot, h.tail_slot),
    )

full_test :
    (b : Bda) (keys : List ℕ)
    → Holds b keys
    → (next_tail b b.kb_buf_tail == b.kb_buf_head) ≡ (length keys + 1 == slots b)
full_test b keys h = ground (arith, full_iff b keys h)

-- The key codes that the buffer holds after `key` has been put in: none is lost or moved, and the
-- new one is dropped if it is 0 or if all slots but one are in use.
abbrev pub queued : Bda → ℕ → List ℕ → List ℕ
queued b key keys =
    if key == 0 then keys else if length keys + 1 == slots b then keys else keys ++ key ∷ []

put-Holds :
    (b : Bda) (key : ℕ) (keys : List ℕ)
    → Holds b keys
    → (next_tail b b.kb_buf_tail == b.kb_buf_head) ≡ false
    → Holds (put b b.kb_buf_tail key) (keys ++ key ∷ [])
put-Holds b key keys h room =
    let next = next_tail-IsSlot b b.kb_buf_tail h.end_in h.tail_slot in
    record {
      end_in = h.end_in;
      head_slot = record {
        from_start = h.head_slot.from_start;
        fits = h.head_slot.fits;
        even = h.head_slot.even;
      };
      tail_slot = record { from_start = next.from_start; fits = next.fits; even = next.even };
      queue =
          put-IsQueue b key b.kb_buf_head b.kb_buf_tail keys h.end_in h.head_slot h.tail_slot
            (λ e. ground (arith, e)) h.queue;
    }

-- What follows the `switch` of `handle_code` puts the key code behind the others.
pub enqueue-Holds :
    (b : Bda) (key : ℕ) (keys : List ℕ) → Holds b keys → Holds (enqueue key b) (queued b key keys)
unfolding enqueue
enqueue-Holds b key keys h = elim (Bool-cases (key == 0)) [
  | inl z ↦ rw z h
  | inr z ↦ elim (Bool-cases (next_tail b b.kb_buf_tail == b.kb_buf_head)) [
    | inl full ↦ rw (z, ← full_test b keys h, full) h
    | inr room ↦ rw (z, ← full_test b keys h, room) (put-Holds b key keys h room)
  ]
]
