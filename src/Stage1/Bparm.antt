-- ===== src/Stage1/Bparm.antt =====
-- stage1/bparm.c: the linked list of boot parameters, whose nodes lie in boot-time base memory.
pub mod Chain
pub mod Fini
pub mod Append
use biefircate.Prelude.{
  ℕ, ◌+◌, Bool, Option, none, some, ◌==◌, if◌then◌else◌, Outcome, ok, stop, Stop, ◌>>=◌,
}
use biefircate.Bparams.{Bparm, Bdat, MemRange, bp_mrng, sizeof_mem_range}
use biefircate.Stage1.Bmem
use biefircate.Stage1.Bmem.{bmem_alloc_boottime}

-- A node of the list, `struct bparm`. NULL is 0.
pub record Node : Type 0 where
  pub next : ℕ
  pub param : Bparm

-- The variables of bmem.c and bparm.c, and the nodes in memory by their addresses.
pub record State : Type 0 where
  pub bmem : Bmem.State
  pub bp_head : ℕ
  pub bp_tail : ℕ
  pub node : ℕ → Option Node

abbrev pub Nodes : Type 0
Nodes = ℕ → Option Node

-- A node is written.
abbrev pub store : Nodes → ℕ → Node → Nodes
store m a n x = if x == a then some n else m x

-- `p->next = q`; nothing is written where no node is.
abbrev pub set_next : Nodes → ℕ → ℕ → Nodes
set_next m p q = elim (m p) [ none ↦ m | some n ↦ store m p (record n { next = q }) ]

-- What the owner of a node writes into its data field.
unfoldable pub fill : ℕ → Bdat → State → State
fill a d s = elim (s.node a) [
  | none ↦ s
  | some n ↦ record s { node = store s.node a (record n { param = record n.param { u = d } }) }
]

-- sizeof(bparm_t) and sizeof(void *) in stage 1.
abbrev pub sizeof_bparm : ℕ
sizeof_bparm = 16

abbrev pub sizeof_ptr : ℕ
sizeof_ptr = 8

-- The list after the node at `bp` has been linked and its fields have been written.
unfoldable pub link : State → Bmem.State → ℕ → ℕ → ℕ → State
link s b bp ty size =
    let fresh : Node = record {
      next = 0;
      param = record { type = ty; size = size; u = Bdat.blank };
    } in
    if s.bp_head == 0
    then record { bmem = b; bp_head = bp; bp_tail = bp; node = store s.node bp fresh }
    else record {
      bmem = b;
      bp_head = s.bp_head;
      bp_tail = bp;
      node = store (set_next s.node s.bp_tail bp) bp fresh;
    }

-- `bparm_add(type, size)`. What it returns is the node's address; the code returns that of its
-- data field, which is `sizeof_bparm` further on.
unfoldable pub bparm_add : ℕ → ℕ → State → Outcome (ℕ × State)
bparm_add ty size s = do
  (bp, b) ← bmem_alloc_boottime s.bmem (sizeof_bparm + size) sizeof_ptr
  ok (bp, link s b bp ty size)

-- `bparm_add_mem_range(...)`; NULL is `none`.
unfoldable pub bparm_add_mem_range : MemRange → State → Outcome (Option ℕ × State)
bparm_add_mem_range r s = if r.len == 0 then ok (none, s) else do
  (bd, s') ← bparm_add bp_mrng sizeof_mem_range s
  ok (some bd, fill bd (Bdat.mem_range r) s')

-- `bparm_get()`.
unfoldable pub bparm_get : State → ℕ
bparm_get s = s.bp_head
