-- ===== src/Stage1/Bparm/Fini/Result.antt =====
-- What bmem_fini of stage1/bmem.c comes to.
use biefircate.Prelude.{
  ℕ, ◌+◌, ◌-◌, ◌*◌, ◌/◌, ◌%◌, ◌≤◌, ◌≡◌, inl, inr, refl, bit_and, true, List, ◌++◌, arith,
  Bool-cases, Gives, Gives-bind, Gives-imp, ap, ◌∙◌, ◌<◌, ok, Outcome, ◌>>=◌, All,
}
use biefircate.Prelude.Words.{u64, neg_w, IsAlignedDown, bit_and-neg}
use biefircate.Bparams.{Bparm}
use biefircate.Stage1.Bmem.{para_size, bmem_max_addr, enough}
use biefircate.Stage1.Bmem.Init.{Desc}
use biefircate.Stage1.Bparm.{State}
use biefircate.Stage1.Bparm.Chain.{Params, Holds}
use biefircate.Stage1.Bparm.Fini.{
  add_uefi_mem_bparms, add_our_mem_bparms, bot_up, top_down, rounded, bmem_fini,
}
use biefircate.Stage1.Bparm.Fini.Ranges.{
  contents, IsExtended, uefi_params, IsOwn, IsExtendedByOwn, IsExtended-append,
  add_uefi_mem_bparms-Gives, add_our_mem_bparms-Gives,
}

-- `bot` and `top` are those of the state `before`, once all is added to the state `first`, the one rounded
-- up to a whole paragraph and the other down to a whole kibibyte, with enough memory between them; and
-- the boot parameters are those from before, the memory map's ranges, and ranges of the blocks.
pub record IsFinished (descs : List Desc) (ps : Params) (first : State) (bot top : ℕ) (s : State)
    : Type 0 where
  pub own : List Bparm
  pub all_own : All IsOwn own
  pub added : Params
  pub holds : Holds s (ps ++ added)
  pub is : contents added ≡ uefi_params descs ++ own
  pub before : State
  pub steps : (add_uefi_mem_bparms descs first >>= add_our_mem_bparms) ≡ ok before
  pub rounded_up :
      (before.bmem.boottime_bmem_bot ≤ bot) × (bot < before.bmem.boottime_bmem_bot + 16)
  pub rounded_down :
      (top ≤ before.bmem.runtime_bmem_top) × (before.bmem.runtime_bmem_top < top + 1024)
  pub bot_is : bot ≡ s.bmem.boottime_bmem_bot
  pub top_is : top ≡ s.bmem.runtime_bmem_top
  pub paragraphs : bot % 16 ≡ 0
  pub kibibytes : top % 1024 ≡ 0
  pub enough_top : 192 * 1024 ≤ top
  pub enough_room : bot + 128 * 1024 ≤ top

bot_up_lem : (bot : ℕ) → bot ≤ bmem_max_addr → bot_up bot ≡ (bot + 15) / 16 * 16
bot_up_lem bot small =
    let down : IsAlignedDown (u64 (bot + para_size - 1)) 16
        (bit_and (u64 (bot + para_size - 1)) (neg_w 64 16)) =
      bit_and-neg 64 (u64 (bot + para_size - 1)) 16 (omega arith) (4, 60, refl, refl) in
    omega (arith, down.below, down.near, down.multiple)

top_down_lem : (top : ℕ) → top ≤ bmem_max_addr → top_down top ≡ top / 1024 * 1024
top_down_lem top small =
    let down : IsAlignedDown top 1024 (bit_and top (neg_w 64 1024)) =
      bit_and-neg 64 top 1024 (omega arith) (10, 54, refl, refl) in
    omega (arith, down.below, down.near, down.multiple)

enough_lem :
    (s : State)
    → enough s.bmem ≡ true
    → (192 * 1024 ≤ s.bmem.runtime_bmem_top)
      × (s.bmem.boottime_bmem_bot + 128 * 1024 ≤ s.bmem.runtime_bmem_top)
unfolding enough
enough_lem s e = (ground arith, ground arith)

rounded-Holds :
    (s : State) (ps : Params) → enough (rounded s).bmem ≡ true → Holds s ps → Holds (rounded s) ps
rounded-Holds s ps e h =
    let (some_top, room) = enough_lem (rounded s) e in
    let down = top_down_lem s.bmem.runtime_bmem_top h.valid.top_in in
    record {
      valid = record {
        laid_out = h.valid.laid_out;
        top_in = omega (arith, down, h.valid.top_in);
        bot_in = omega (arith, down, h.valid.top_in, room);
      };
      chain = h.chain;
      tail = h.tail;
      distinct = h.distinct;
      taken = h.taken;
    }

abbrev pub IsResult : List Desc → Params → State → ℕ × ℕ × State → Type 0
IsResult descs ps s (bot, top, s') = IsFinished descs ps s bot top s'

-- `bmem_fini`, with the boot parameters in a list: it returns or calls `error`. If it returns, the list
-- has the parameters from before, then one for each nonempty range of the memory map below 1 MiB that
-- is not usable memory, cut off there, with its type; and then nonempty ranges below 1 MiB that are
-- available or reserved. The end of the boot-time memory once all are added is rounded up to the next
-- multiple of 16, the end of the run-time memory down to a multiple of 1024, and there are at least
-- 192 KiB, 128 KiB of them between the two.
pub bmem_fini_lem :
    (descs : List Desc) (s : State) (ps : Params)
    → Holds s ps
    → Gives (IsResult descs ps s) (bmem_fini descs s)
unfolding bmem_fini
bmem_fini_lem descs s ps h =
    let Added = λ (s1 : State).
      IsExtended s ps (uefi_params descs) s1 × (add_uefi_mem_bparms descs s ≡ ok s1) in
    Gives-bind Added (IsResult descs ps s) (add_uefi_mem_bparms descs s) _
      (Gives-imp (IsExtended s ps (uefi_params descs)) Added (add_uefi_mem_bparms descs s)
        (λ s1 got e. (e, got)) (add_uefi_mem_bparms-Gives descs s ps h))
      λ s1 (e, got).
        let Own =
          λ (s2 : State). IsExtendedByOwn s1 (ps ++ e.0) s2 × (add_our_mem_bparms s1 ≡ ok s2) in
        Gives-bind Own (IsResult descs ps s) (add_our_mem_bparms s1) _
          (Gives-imp (IsExtendedByOwn s1 (ps ++ e.0)) Own (add_our_mem_bparms s1)
            (λ s2 got' e'. (e', got')) (add_our_mem_bparms-Gives s1 (ps ++ e.0) e.1))
          λ s2 ((own, all_own, e'), got').
            let (added, holds, is, fewer) =
              IsExtended-append s s1 s2 ps (uefi_params descs) own e e' in
            elim (Bool-cases (enough (rounded s2).bmem)) [
              | inl yes_enough ↦
                  let (some_top, room) = enough_lem (rounded s2) yes_enough in
                  let up = bot_up_lem s2.bmem.boottime_bmem_bot holds.valid.bot_in in
                  let down = top_down_lem s2.bmem.runtime_bmem_top holds.valid.top_in in
                  rw yes_enough (record {
                    own = own;
                    all_own = all_own;
                    added = added;
                    holds = rounded-Holds s2 (ps ++ added) yes_enough holds;
                    is = is;
                    before = s2;
                    steps = ap (λ (t : Outcome State). t >>= add_our_mem_bparms) got ∙ got';
                    rounded_up = omega (arith, up);
                    rounded_down = omega (arith, down);
                    bot_is = refl;
                    top_is = refl;
                    paragraphs = omega (arith, up);
                    kibibytes = omega (arith, down);
                    enough_top = some_top;
                    enough_room = room;
                  })
              | inr poor ↦ rw poor tt
            ]
