-- ===== src/Stage1/Handover/Result.antt =====
-- What prepare_to_hand_over of stage1/main.c comes to.
use biefircate.Prelude.{
  ℕ, ◌+◌, ◌*◌, ◌/◌, ◌≤◌, ◌≡◌, refl, ap, ap₂, sym, subst, ◌∙◌, Bool, true, inl, inr, List, [], ◌∷◌,
  ◌++◌, arith, Bool-cases, All, Gives, Gives-bind,
}
use mathlib.Core.List.{append_assoc}
use biefircate.Bparams.{Bparm, bp_bmem, sizeof_bmem}
use biefircate.Stage1.Bmem.{kibyte}
use biefircate.Stage1.Bmem.Init.{Desc}
use biefircate.Stage1.Bparm.{State, fill, bparm_add}
use biefircate.Stage1.Bparm.Chain.{Params, Holds, blank_param, fill-Holds}
use biefircate.Stage1.Bparm.Append.{IsAppended, bparm_add-Gives, filled-middle}
use biefircate.Stage1.Bparm.Fini.{bmem_fini}
use biefircate.Stage1.Bparm.Fini.Ranges.{
  contents, contents-append, uefi_params, IsOwn, IsExtended, fill-bmem,
}
use biefircate.Stage1.Bparm.Fini.Result.{IsResult, IsFinished, bmem_fini_lem}
use biefircate.Stage1.Handover.{bmem_data, add_extended, prepare_to_hand_over}
use biefircate.Stage1.Handover.Extended.{IsSane, extended_params, add_extended-Gives}

abbrev pub bmem_param : ℕ → ℕ → Bparm
bmem_param bot top = record { type = bp_bmem; size = sizeof_bmem; u = bmem_data bot top }

-- The boot parameters that stage 2 gets, and the KiB of base memory.
pub record IsHandedOver (descs : List Desc) (ps : Params) (kib : ℕ) (s : State) : Type 0 where
  pub bot : ℕ
  pub top : ℕ
  pub own : List Bparm
  pub params : Params
  pub holds : Holds s params
  pub is :
      contents params
      ≡ (contents ps ++ extended_params descs) ++ bmem_param bot top ∷ (uefi_params descs ++ own)
  pub all_own : All IsOwn own
  pub bot_is : bot ≡ s.bmem.boottime_bmem_bot
  pub top_is : top ≡ s.bmem.runtime_bmem_top
  pub kib_is : kib * 1024 ≡ top
  pub enough_top : 192 ≤ kib
  pub enough_room : bot + 128 * 1024 ≤ top

abbrev pub IsOver : List Desc → Params → ℕ × State → Type 0
IsOver descs ps (kib, s) = IsHandedOver descs ps kib s

-- The state with the data of the parameter BP_BMEM filled in.
IsFinished-IsHandedOver :
    (descs : List Desc) (ps ext : Params) (a bot top : ℕ) (s : State)
    → contents ext ≡ extended_params descs
    → (first : State)
    → IsFinished descs ((ps ++ ext) ++ (a, blank_param bp_bmem sizeof_bmem) ∷ []) first bot top s
    → IsHandedOver descs ps (top / kibyte) (fill a (bmem_data bot top) s)
IsFinished-IsHandedOver descs ps ext a bot top s is first f =
    let blank = blank_param bp_bmem sizeof_bmem in
    let d = bmem_data bot top in
    let holds : Holds s ((ps ++ ext) ++ (a, blank) ∷ f.added) =
      subst (λ (qs : Params). Holds s qs) (append_assoc (ps ++ ext) ((a, blank) ∷ []) f.added)
        f.holds in
    let same = fill-bmem a d s in
    record {
      bot = bot;
      top = top;
      own = f.own;
      params = (ps ++ ext) ++ (a, record blank { u = d }) ∷ f.added;
      holds =
          subst (λ (qs : Params). Holds (fill a d s) qs)
            (filled-middle a d blank (ps ++ ext) f.added holds.distinct)
            (fill-Holds s ((ps ++ ext) ++ (a, blank) ∷ f.added) a d holds);
      is =
          contents-append (ps ++ ext) ((a, record blank { u = d }) ∷ f.added)
          ∙ ap₂ (λ (bs cs : List Bparm). bs ++ bmem_param bot top ∷ cs)
              (contents-append ps ext ∙ ap (λ (bs : List Bparm). contents ps ++ bs) is) f.is;
      all_own = f.all_own;
      bot_is = f.bot_is ∙ ap (λ b. b.boottime_bmem_bot) (sym same);
      top_is = f.top_is ∙ ap (λ b. b.runtime_bmem_top) (sym same);
      kib_is = omega (arith, f.kibibytes);
      enough_top = omega (arith, f.enough_top);
      enough_room = f.enough_room;
    }

-- `prepare_to_hand_over`, with the boot parameters in a list and a memory map of descriptors that have
-- pages and do not wrap around: it returns or calls `error`, the latter if ExitBootServices fails. If it
-- returns, the list has the parameters from before, then the nonempty parts of the memory map from 1 MiB
-- on with their types, then the parameter BP_BMEM with the segments of the two addresses, then the ranges
-- below 1 MiB that `bmem_fini` adds. What is returned is the address of the top in KiB, exactly; there are
-- at least 192 KiB, 128 KiB of them above the other address.
pub prepare_to_hand_over_lem :
    (descs : List Desc) (exits : Bool) (s : State) (ps : Params)
    → All IsSane descs
    → Holds s ps
    → Gives (λ r. (exits ≡ true) × IsOver descs ps r) (prepare_to_hand_over descs exits s)
unfolding prepare_to_hand_over
prepare_to_hand_over_lem descs exits s ps sane h =
    let Result = λ (r : ℕ × State). (exits ≡ true) × IsOver descs ps r in
    Gives-bind (IsExtended s ps (extended_params descs)) Result (add_extended descs s) _
      (add_extended-Gives descs s ps sane h)
      λ s1 (ext, holds1, is, fewer).
        Gives-bind (IsAppended (ps ++ ext) bp_bmem sizeof_bmem) Result
          (bparm_add bp_bmem sizeof_bmem s1) _
          (bparm_add-Gives s1 (ps ++ ext) bp_bmem sizeof_bmem holds1)
          λ (a, s2) holds2.
            Gives-bind
              (IsResult descs ((ps ++ ext) ++ (a, blank_param bp_bmem sizeof_bmem) ∷ []) s2) Result
              (bmem_fini descs s2) _
              (bmem_fini_lem descs s2 ((ps ++ ext) ++ (a, blank_param bp_bmem sizeof_bmem) ∷ [])
                holds2)
              λ (bot, top, s3) f. elim (Bool-cases exits) [
                | inl e ↦ rw e (refl, IsFinished-IsHandedOver descs ps ext a bot top s3 is s2 f)
                | inr e ↦ rw e tt
              ]
