-- ===== src/Stage1/Bmem/Init/Result.antt =====
-- What bmem_init of stage1/bmem.c comes to: a valid state, with the pages that the firmware gave.
use biefircate.Prelude.{
  ℕ, zero, suc, ◌+◌, ◌*◌, ◌/◌, ◌≤◌, ◌<◌, ◌≡◌, inl, inr, refl, sym, ◌∙◌, Bool, true, false, ◌&&◌,
  ◌||◌, Option, List, arith, ltb, leb, if◌then◌else◌, Bool-cases, length, Outcome, ok, stop, Stop,
  All,
}
use biefircate.Prelude.Words.{u32}
use biefircate.Stage1.Bmem.{State, page_size, bmem_max_addr, enough}
use biefircate.Stage1.Bmem.Layout.{IsFree}
use biefircate.Stage1.Bmem.Alloc.{IsValid}
use biefircate.Stage1.Bmem.Init.{Desc, initial, num_pages, group, first_gap, with_memory, bmem_init}
use biefircate.Stage1.Bmem.Init.Grab.{IsFirmware, grab_lem}
use biefircate.Stage1.Bmem.Init.Blocks.{group_lem}
use biefircate.Stage1.Bmem.Init.Mark.{IsDesc, is_covered, mark_lem}

-- The pages from `idx` up to the gap are available, and the one at the gap is not.
first_gap_lem :
    (avail : ℕ → Bool) (left idx : ℕ)
    → let gap = first_gap avail left idx in
      (idx ≤ gap)
      × (gap ≤ idx + left)
      × ((k : ℕ) → idx ≤ k → k < gap → avail k ≡ true)
      × (gap < idx + left → avail gap ≡ false)
unfolding first_gap
first_gap_lem avail zero idx =
    (omega arith, omega arith, λ k lo hi. absurd (omega arith), λ h. absurd (omega arith))
first_gap_lem avail (suc left) idx = elim (Bool-cases (avail idx)) [
  | inl e ↦
      let (lo, hi, below, at) = first_gap_lem avail left (idx + 1) in
      rw e (
        omega (arith, lo),
        omega (arith, hi),
        λ k l h. elim (Bool-cases (leb k idx)) [
          | inl same ↦ let here : k ≡ idx = ground arith in rw here e
          | inr above ↦ below k (ground arith) h
        ],
        λ h. at (omega (arith, h)),
      )
  | inr e ↦ rw e (omega arith, omega arith, λ k l h. absurd (omega arith), λ h. e)
]

-- What `bmem_init` leaves: a valid state with all bytes of the pages that the firmware has handed out
-- free, except those of page 0; and run-time memory up to the first page that neither the firmware
-- has handed out nor the memory map has as usable.
pub record IsInit {F : Type 0} (owned : F → ℕ → Bool) (descs : List Desc) (fw : F) (s : State)
    : Type 0 where
  pub valid : IsValid s
  pub room : length s.blk ≤ 128
  pub bot : s.boottime_bmem_bot ≡ page_size
  pub free :
      (x : ℕ)
      → (IsFree x s.blk
          → (leb page_size x && (ltb x bmem_max_addr && owned fw (x / page_size))) ≡ true)
        × ((leb page_size x && (ltb x bmem_max_addr && owned fw (x / page_size))) ≡ true
            → IsFree x s.blk)
  pub gap : ℕ
  pub top : s.runtime_bmem_top ≡ gap * page_size
  pub below_gap : (k : ℕ) → k < gap → (owned fw k || is_covered k descs) ≡ true
  pub at_gap : gap < num_pages → (owned fw gap || is_covered gap descs) ≡ false

-- With fewer than 48 pages of run-time memory there is not enough.
not-enough : (s : State) (idx : ℕ) → s.runtime_bmem_top ≡ idx * 4096 → idx < 48 → enough s ≡ false
unfolding enough
not-enough s idx top less = ground arith

-- A test that another one covers.
covered_test :
    {A : Type 0} (b c : Bool) (x : Outcome A) (why : Stop)
    → (b ≡ true → c ≡ false)
    → (if b then stop why else if c then x else stop why) ≡ (if c then x else stop why)
covered_test true c x why h = rw (h refl) refl
covered_test false c x why h = refl

-- `bmem_init`, with a firmware that hands out pages below the limit that it is asked for, none of
-- them before, and a memory map with less than 2 ^ 31 pages in a range: it ends, with 65 rounds for
-- each page that the firmware has left and 8 more, and stops with an error if and only if there is not
-- enough memory. Otherwise its state is valid; the free bytes are those of the pages that the firmware
-- has handed out, except page 0, in at most 128 blocks; and the run-time memory ends at the first page
-- that neither the firmware has handed out nor the memory map has as usable.
pub bmem_init_lem :
    {F : Type 0} (allocate_pages : F → ℕ → Option ℕ × F) (owned : F → ℕ → Bool) (left : F → ℕ)
    (rounds attr : ℕ) (fw : F) (descs : List Desc)
    → IsFirmware allocate_pages owned left
    → ((k : ℕ) → owned fw k ≡ false)
    → All IsDesc descs
    → left fw * 65 + 8 ≤ rounds
    → (fw' : F) × (s' : State) × (bmem_init allocate_pages rounds fw descs (initial attr)
        ≡ (if enough s' then ok (fw', s') else stop Stop.error))
      × IsInit owned descs fw' s'
unfolding bmem_init
bmem_init_lem allocate_pages owned left rounds attr fw descs law none_yet small fuel =
    let (avail, fw', grabbed, mine) =
      grab_lem allocate_pages owned left law rounds 8 128 fw (λ k. false) (omega arith)
        (omega arith) (omega arith) fuel (λ k. sym (none_yet k)) in
    let (avail', attr', marked, covers) = mark_lem descs avail attr small in
    let (low, high, below, at) = first_gap_lem avail' 256 0 in
    let gap = first_gap avail' 256 0 in
    let (laid, free, room) = group_lem avail in
    let s' = with_memory (initial attr) (group avail 255 1 bmem_max_addr) attr' gap in
    let top : u32 (gap * page_size) ≡ gap * page_size = omega (arith, high) in
    (
      fw',
      s',
      rw (grabbed, marked)
          (covered_test (ltb gap 48) (enough s') _ Stop.error
            λ e. not-enough s' gap top (ground arith)),
      record {
        valid = record { laid_out = laid; top_in = omega (arith, top, high); bot_in = omega arith };
        room = room;
        bot = refl;
        free = λ x. rw (← mine (x / page_size)) (free x);
        gap = gap;
        top = top;
        below_gap = λ k l. rw (← mine k) (sym (covers k) ∙ below k (omega arith) l);
        at_gap = λ l. rw (← mine gap) (sym (covers gap) ∙ at l);
      },
    )
