-- ===== src/Stage2/Kb/Irq.antt =====
-- The keyboard interrupt of stage2/16/kb.c.
use biefircate.Prelude.{
  ℕ, ◌<◌, true, ◌==◌, zero, suc, ◌+◌, ◌-◌, ◌≤◌, ◌≡◌, ◌⊎◌, inl, inr, refl, false, [], ◌∷◌, arith,
  Bool-cases,
}
use biefircate.Stage2.Kb.{
  Bda, handle_code, Event, has, wait_rounds, wait_kb_in_buf_clear, snd_sta, irq1_impl, wait_max,
}

-- A wait from the `i`-th read of the status to the `r`-th: at least one read and at most 0xffff; all but
-- the last one show the controller's input buffer full, and so does the last one only if it is the
-- 0xffff-th.
pub record IsWait (sta : ℕ → ℕ) (left i r : ℕ) : Type 0 where
  pub not_back : i ≤ r
  pub some_read : 0 < left → i < r
  pub at_most : r ≤ i + left
  pub full_before : (k : ℕ) → i ≤ k → k + 1 < r → has 0x02 (sta k) ≡ true
  pub done : (r ≡ i + left) ⊎ (has 0x02 (sta (r - 1)) ≡ false)

wait_end :
    (sta : ℕ → ℕ) (left i : ℕ) {r : ℕ}
    → (r ≡ i + 1 + left) ⊎ (has 0x02 (sta (r - 1)) ≡ false)
    → (r ≡ i + suc left) ⊎ (has 0x02 (sta (r - 1)) ≡ false)
wait_end sta left i (inl e) = inl (omega arith)
wait_end sta left i (inr e) = inr e

wait_rounds-IsWait : (sta : ℕ → ℕ) (left i : ℕ) → IsWait sta left i (wait_rounds sta left i)
unfolding wait_rounds
wait_rounds-IsWait sta zero i = record {
  not_back = omega arith;
  some_read = λ pos. absurd (omega (arith, pos));
  at_most = omega arith;
  full_before = λ k lo hi. absurd (omega (arith, lo, hi));
  done = inl (omega arith);
}
wait_rounds-IsWait sta (suc left) i =
    let rest = wait_rounds-IsWait sta left (i + 1) in
    elim (Bool-cases (has 0x02 (sta i))) [
      | inl busy ↦ rw busy (record {
        not_back = omega (arith, rest.not_back);
        some_read = λ pos. omega (arith, rest.not_back);
        at_most = omega (arith, rest.at_most);
        full_before = λ k lo hi. elim (Bool-cases (k == i)) [
          | inl e ↦ let at : k ≡ i = ground (arith, e) in rw at busy
          | inr e ↦ rest.full_before k (ground (arith, e, lo)) hi
        ];
        done = wait_end sta left i rest.done;
      })
      | inr clear ↦ rw clear (record {
        not_back = omega arith;
        some_read = λ pos. omega arith;
        at_most = omega arith;
        full_before = λ k lo hi. absurd (omega (arith, lo, hi));
        done = inr (let e : i + 1 - 1 ≡ i = omega arith in rw e clear);
      })
    ]

wait_kb_in_buf_clear-IsWait :
    (sta : ℕ → ℕ) (i : ℕ) → IsWait sta 0xffff i (wait_kb_in_buf_clear sta i)
unfolding wait_kb_in_buf_clear
wait_kb_in_buf_clear-IsWait sta i = wait_rounds-IsWait sta wait_max i

-- The keyboard interrupt, whatever the controller's status reads: it waits and disables the keyboard,
-- waits again, reads the one code and handles it, then acknowledges the interrupt, waits and enables the
-- keyboard, in this order and with nothing else in between. Each wait goes on from the last read of the
-- status, ends with the first read that shows the controller's input buffer empty, and after 0xffff reads
-- at the latest. The variables are those that the code leads to.
pub irq1_impl_lem :
    (sta : ℕ → ℕ) (code : ℕ) (b : Bda)
    → (i j k : ℕ) × IsWait sta 0xffff 0 i
      × IsWait sta 0xffff i j
      × IsWait sta 0xffff j k
      × (irq1_impl sta code b ≡ record {
        reads = k;
        trace =
            Event.waited 0 i
            ∷ Event.outp 0x64 0xad
            ∷ Event.waited i j
            ∷ Event.inp 0x60
            ∷ Event.handled code
            ∷ Event.outp 0x20 0x20
            ∷ Event.waited j k
            ∷ Event.outp 0x64 0xae
            ∷ [];
        bda = handle_code code b;
      })
unfolding irq1_impl snd_sta
irq1_impl_lem sta code b =
    let i = wait_kb_in_buf_clear sta 0 in
    let j = wait_kb_in_buf_clear sta i in
    (
      i,
      j,
      wait_kb_in_buf_clear sta j,
      wait_kb_in_buf_clear-IsWait sta 0,
      wait_kb_in_buf_clear-IsWait sta i,
      wait_kb_in_buf_clear-IsWait sta j,
      refl,
    )
