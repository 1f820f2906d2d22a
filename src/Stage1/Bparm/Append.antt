-- ===== src/Stage1/Bparm/Append.antt =====
-- stage1/bparm.c: bparm_add as its callers use it, and the data that they fill in later.
use biefircate.Prelude.{
  ℕ, ◌+◌, ◌≢◌, ◌≡◌, [], ◌∷◌, ◌++◌, arith, All-middle, Gives, Gives-bind, Gives-imp,
}
use biefircate.Bparams.{Bparm, Bdat}
use biefircate.Stage1.Bmem.{bmem_alloc_boottime}
use biefircate.Stage1.Bparm.{State, bparm_add, sizeof_bparm, sizeof_ptr}
use biefircate.Stage1.Bparm.Chain.{
  Params, Holds, IsDistinct, filled, filled-absent, blank_param, bparm_add-Holds,
}
use biefircate.Stage1.Bparm.Fini.Ranges.{IsFewer, bmem_alloc_boottime-Gives}

-- A new parameter at the end of the list.
abbrev pub IsAppended : Params → ℕ → ℕ → ℕ × State → Type 0
IsAppended ps ty size (a, s) = Holds s (ps ++ (a, blank_param ty size) ∷ [])

pub bparm_add-Gives :
    (s : State) (ps : Params) (ty size : ℕ)
    → Holds s ps
    → Gives (IsAppended ps ty size) (bparm_add ty size s)
unfolding bparm_add
bparm_add-Gives s ps ty size h =
    Gives-imp (λ r. Unit) (IsAppended ps ty size) (bparm_add ty size s)
      (λ (a, s') e any. (bparm_add-Holds s s' ps ty size a h e).0)
      (Gives-bind (IsFewer s.bmem) (λ r. Unit)
        (bmem_alloc_boottime s.bmem (sizeof_bparm + size) sizeof_ptr) _
        (bmem_alloc_boottime-Gives s.bmem (sizeof_bparm + size) sizeof_ptr) λ (a, b) fewer. tt)

-- A node in the middle of a list gets its data.
pub filled-middle :
    (a : ℕ) (d : Bdat) (b : Bparm) (ps qs : Params)
    → IsDistinct (ps ++ (a, b) ∷ qs)
    → filled a d (ps ++ (a, b) ∷ qs) ≡ ps ++ (a, record b { u = d }) ∷ qs
filled-middle a d b [] qs (absent, apart) = rw (filled-absent a d qs absent) (ground arith)
filled-middle a d b ((x, c) ∷ ps) qs (absent, apart) =
    ground (arith, filled-middle a d b ps qs apart, All-middle (λ p. p.0 ≢ x) ps qs (a, b) absent)
