-- ===== src/Ha/StaleLeader.antt =====
-- The flag leader_ of ha/ha_controller.cpp behind a call of `stop`.
use email_server_backend.Base.{ℕ, ◌≡◌, ap, ◌∙◌, refl, true, false, none, ◌==◌, arith}
use email_server_backend.Ha.Election.{Lock}
use email_server_backend.Ha.Controller.{Node, Phase, test, end_stop, is_leader}
use email_server_backend.Ha.Nodes.{tests, stopped, System, update, Step, pick, Reach, later}

end_stop-leader :
    (l : Lock) (n : Node)
    → n.election.leader ≡ true
    → ((end_stop l n).0 ≡ none)
      × (((end_stop l n).1.leader ≡ n.leader) × ((end_stop l n).1.phase ≡ Phase.absent))
unfolding end_stop
end_stop-leader l n e = ground (arith, e)

-- A node that can have the lock gets it.
test-free :
    (j : ℕ) (l : Lock) (n : Node)
    → l ≡ none
    → n.running ≡ true
    → ((test true j l n).1.leader ≡ true) × ((test true j l n).1.phase ≡ Phase.working)
unfolding test
test-free j l n e r = ground (arith, e, r)

-- The end of `stop` on the node `i`, and a turn of the node `j` that can open the lock file.
abbrev pub after_stop : ℕ → System → System
after_stop i s =
    let r = end_stop s.lock (s.node i) in record { lock = r.0; node = update s.node i r.1 }

abbrev pub after_turn : ℕ → System → System
after_turn j s =
    let r = test true j s.lock (s.node j) in record { lock = r.0; node = update s.node j r.1 }

stop-Step :
    (i : ℕ) (s : System)
    → (s.node i).stopping ≡ true
    → (s.node i).phase ≡ Phase.exited
    → Step s (after_stop i s)
stop-Step i s p q = pick i (stopped p q)

turn-Step : (j : ℕ) (s : System) → (s.node j).phase ≡ Phase.testing → Step s (after_turn j s)
turn-Step j s p = pick j (tests true p)

module _ (i j : ℕ) (s : System) (apart : (i == j) ≡ false) where
  other-node : (after_stop i s).node j ≡ s.node j
  other-node = rw apart refl

  node-i : (after_turn j (after_stop i s)).node i ≡ (end_stop s.lock (s.node i)).1
  node-i = ground (arith, apart)

  node-j :
      (after_turn j (after_stop i s)).node j
      ≡ (test true j (end_stop s.lock (s.node i)).0 (s.node j)).1
  node-j = ground (arith, apart)

-- A controller that led when it was stopped still says that it leads: from every reachable state in
-- which its thread has ended and `stop` has not, the end of `stop` and one turn of another node,
-- which runs and can open the lock file, are steps of the two that lead from it to a state where
-- both say so, while the first one has no thread and the other one works on the queue.
pub stop-is_leader :
    (i j : ℕ) (s : System)
    → Reach s
    → (i == j) ≡ false
    → (s.node i).stopping ≡ true
    → (s.node i).phase ≡ Phase.exited
    → (s.node i).leader ≡ true
    → (s.node i).election.leader ≡ true
    → (s.node j).running ≡ true
    → (s.node j).phase ≡ Phase.testing
    → let u = after_stop i s in
      let t = after_turn j u in
      Step s u
      × Step u t
      × Reach t
      × (is_leader (t.node i) ≡ true)
      × (is_leader (t.node j) ≡ true)
      × ((t.node j).phase ≡ Phase.working)
      × ((t.node i).phase ≡ Phase.absent)
unfolding is_leader
stop-is_leader i j s r d p q l e running testing =
    let ends = end_stop-leader s.lock (s.node i) e in
    let leads = test-free j (end_stop s.lock (s.node i)).0 (s.node j) ends.0 running in
    let u = after_stop i s in
    let ends-Step = stop-Step i s p q in
    let turns-Step = turn-Step j u (ap (λ (n : Node). n.phase) (other-node i j s d) ∙ testing) in
    (
      ends-Step,
      turns-Step,
      later (later r ends-Step) turns-Step,
      ap (λ (n : Node). n.leader) (node-i i j s d) ∙ (ends.1.0 ∙ l),
      ap (λ (n : Node). n.leader) (node-j i j s d) ∙ leads.0,
      ap (λ (n : Node). n.phase) (node-j i j s d) ∙ leads.1,
      ap (λ (n : Node). n.phase) (node-i i j s d) ∙ ends.1.1,
    )
