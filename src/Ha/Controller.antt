-- ===== src/Ha/Controller.antt =====
-- ha/ha_controller.cpp: the calls of `start` and `stop`, and the thread that `run` is, one step at
-- a
-- time.
use email_server_backend.Base.{ℕ, Bool, true, false, not, if◌then◌else◌}
use email_server_backend.Ha.Election.{Lock, LeaderElection, try_become_leader, release_leadership}

-- Where the thread stands: there is none, before the test of `running_`, before `worker.runOnce()`,
-- in the sleep of two seconds, or behind the loop.
pub data Phase : Type 0 where
  absent testing working sleeping exited : Phase

-- `stopping` says that a call of `stop` waits for the thread.
pub record Node : Type 0 where
  pub running : Bool
  pub leader : Bool
  pub election : LeaderElection
  pub phase : Phase
  pub stopping : Bool

abbrev pub fresh_node : Node
fresh_node = record {
  running = false;
  leader = false;
  election = record { leader = false };
  phase = Phase.absent;
  stopping = false;
}

unfoldable pub start : Node → Node
start n = if n.running then n else record n { running = true; phase = Phase.testing }

-- The test of the loop, and the election.
unfoldable pub test : Bool → ℕ → Lock → Node → Lock × Node
unfolding try_become_leader
test open_ok me lock n =
    let r = try_become_leader open_ok me lock n.election in
    if not n.running
    then (lock, record n { phase = Phase.exited })
    else if r.won
    then (r.lock, record n { leader = true; election = r.election; phase = Phase.working })
    else (r.lock, record n { leader = false; election = r.election; phase = Phase.sleeping })

-- The end of `worker.runOnce()`.
unfoldable pub finish_work : Node → Node
finish_work n = record n { phase = Phase.sleeping }

unfoldable pub wake : Node → Node
wake n = record n { phase = Phase.testing }

-- `stop` up to the wait for the thread.
unfoldable pub begin_stop : Node → Node
begin_stop n = if not n.running then n else record n { running = false; stopping = true }

-- `stop` from there on.
unfoldable pub end_stop : Lock → Node → Lock × Node
unfolding release_leadership
end_stop lock n =
    let released = release_leadership lock n.election in
    (released.0, record n { election = released.1; phase = Phase.absent; stopping = false })

unfoldable pub is_leader : Node → Bool
is_leader n = n.leader
