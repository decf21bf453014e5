-- ===== src/Ha/Exclusion.antt =====
-- At most one node works on the queue.
use email_server_backend.Base.{
  ℕ, ◌≡◌, ◌≢◌, subst, true, false, some, ◌==◌, ==_iff, arith, inl, inr, Bool-cases,
}
use email_server_backend.Ha.Election.{Lock}
use email_server_backend.Ha.Controller.{
  Node, Phase, start, test, finish_work, wake, begin_stop, end_stop,
}
use email_server_backend.Ha.Nodes.{
  Move, starts, tests, works, wakes, stops, stopped, dies, System, Step, pick, Reach, begin, later,
}

-- A node that leads holds the lock, and a node that works leads.
pub record IsSound (i : ℕ) (l : Lock) (n : Node) : Type 0 where
  pub held : n.election.leader ≡ true → l ≡ some i
  pub busy : n.phase ≡ Phase.working → n.election.leader ≡ true

Move-IsSound :
    {i : ℕ} {l l' : Lock} {n n' : Node} → Move i l n l' n' → IsSound i l n → IsSound i l' n'
unfolding start test finish_work wake begin_stop end_stop
Move-IsSound (starts p) h = ground (arith, h.held, h.busy)
Move-IsSound (tests ok p) h = ground (arith, h.held, h.busy)
Move-IsSound (works p) h = ground (arith, h.held, h.busy)
Move-IsSound (wakes p) h = ground (arith, h.held, h.busy)
Move-IsSound (stops p) h = ground (arith, h.held, h.busy)
Move-IsSound (stopped p q) h = ground (arith, h.held, h.busy)
Move-IsSound dies h = ground (arith, h.held, h.busy)

-- What another node holds, it goes on to hold.
Move-keeps :
    {i : ℕ} {l l' : Lock} {n n' : Node}
    → Move i l n l' n'
    → IsSound i l n
    → (j : ℕ) → i ≢ j
    → l ≡ some j
    → l' ≡ some j
unfolding start test finish_work wake begin_stop end_stop
Move-keeps (starts p) h j d e = e
Move-keeps (tests ok p) h j d e = ground (arith, h.held, h.busy)
Move-keeps (works p) h j d e = e
Move-keeps (wakes p) h j d e = e
Move-keeps (stops p) h j d e = e
Move-keeps (stopped p q) h j d e = ground (arith, h.held, h.busy)
Move-keeps dies h j d e = rw e (ground arith)

apart : (i j : ℕ) → i ≡ j → (i == j) ≢ false
apart i j p e = ground arith

abbrev pub AllSound : System → Type 0
AllSound s = (i : ℕ) → IsSound i s.lock (s.node i)

-- The other nodes stay sound.
Move-other :
    {i : ℕ} {l l' : Lock} {n n' : Node}
    → Move i l n l' n'
    → IsSound i l n
    → (j : ℕ) (m : Node) → i ≢ j
    → IsSound j l m
    → IsSound j l' m
Move-other mv h j m d k = record { held = λ e. Move-keeps mv h j d (k.held e); busy = k.busy }

Step-AllSound : {s t : System} → Step s t → AllSound s → AllSound t
Step-AllSound {s} (pick i {l} {n} mv) h j = elim (Bool-cases (i == j)) [
  | inl e ↦ rw e (subst (λ (k : ℕ). IsSound k l n) ((==_iff i j).0 e) (Move-IsSound mv (h i)))
  | inr e ↦ rw e (Move-other mv (h i) j (s.node j) (λ p. apart i j p e) (h j))
]

pub Reach-AllSound : {s : System} → Reach s → AllSound s
Reach-AllSound begin = λ i. record { held = λ e. cc e; busy = λ e. cc e }
Reach-AllSound (later r st) = Step-AllSound st (Reach-AllSound r)

-- However the starts, the elections, the stops and the deaths of any number of nodes interleave, at
-- most one node is at work on the queue at any time.
pub Reach-exclusive :
    {s : System}
    → Reach s
    → (i j : ℕ) → (s.node i).phase ≡ Phase.working
    → (s.node j).phase ≡ Phase.working
    → i ≡ j
Reach-exclusive {s} r i j p q =
    let all = Reach-AllSound r in cc ((all i).held ((all i).busy p), (all j).held ((all j).busy q))
