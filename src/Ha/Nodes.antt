-- ===== src/Ha/Nodes.antt =====
-- Any number of nodes with one lock file, interleaved in any order. The death of a process closes
-- its files, which frees the lock if it held it.
use email_server_backend.Base.{ℕ, ◌≡◌, Bool, true, false, none, some, ◌==◌, if◌then◌else◌}
use email_server_backend.Ha.Election.{Lock}
use email_server_backend.Ha.Controller.{
  Node, Phase, fresh_node, start, test, finish_work, wake, begin_stop, end_stop,
}

abbrev pub free : ℕ → Lock → Lock
free i none = none
free i (some j) = if i == j then none else some j

-- A step of the node `i`, from the lock and its own state to the lock and its state afterwards.
pub data Move (i : ℕ) (l : Lock) (n : Node) : Lock → Node → Type 0 where
  starts : n.phase ≡ Phase.absent → Move i l n l (start n)
  tests :
      (open_ok : Bool)
      → n.phase ≡ Phase.testing
      → Move i l n (test open_ok i l n).0 (test open_ok i l n).1
  works : n.phase ≡ Phase.working → Move i l n l (finish_work n)
  wakes : n.phase ≡ Phase.sleeping → Move i l n l (wake n)
  stops : n.stopping ≡ false → Move i l n l (begin_stop n)
  stopped :
      n.stopping ≡ true → n.phase ≡ Phase.exited → Move i l n (end_stop l n).0 (end_stop l n).1
  dies : Move i l n (free i l) fresh_node

pub record System : Type 0 where
  pub lock : Lock
  pub node : ℕ → Node

abbrev pub update : (ℕ → Node) → ℕ → Node → ℕ → Node
update f i n j = if i == j then n else f j

pub data Step (s : System) : System → Type 0 where
  pick :
      (i : ℕ) {l : Lock} {n : Node}
      → Move i s.lock (s.node i) l n
      → Step s (record { lock = l; node = update s.node i n })

-- Nobody runs yet.
abbrev pub first : System
first = record { lock = none; node = λ i. fresh_node }

pub data Reach : System → Type 0 where
  begin : Reach first
  later : {s t : System} → Reach s → Step s t → Reach t
