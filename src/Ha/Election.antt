-- ===== src/Ha/Election.antt =====
-- ha/leader_election.cpp. `Lock` is what the system keeps for the lock file: which node holds it,
-- by
-- an exclusive `flock` or, on Windows, by a file that is open without sharing.
use email_server_backend.Base.{ℕ, Bool, true, false, not, Option, none, some, if◌then◌else◌}

abbrev pub Lock : Type 0
Lock = Option ℕ

-- The flag leader_; the open file is there exactly if it is set.
pub record LeaderElection : Type 0 where
  pub leader : Bool

-- Whether the node leads now, the lock, and the state after the call.
pub record Attempt : Type 0 where
  pub won : Bool
  pub lock : Lock
  pub election : LeaderElection

-- `open_ok` says whether the lock file can be opened.
unfoldable pub try_become_leader : Bool → ℕ → Lock → LeaderElection → Attempt
try_become_leader open_ok me lock e =
    if e.leader
    then record { won = true; lock = lock; election = e }
    else if not open_ok
    then record { won = false; lock = lock; election = e }
    else elim lock [
      | some other ↦ record { won = false; lock = some other; election = e }
      | none ↦ record { won = true; lock = some me; election = record { leader = true } }
    ]

unfoldable pub release_leadership : Lock → LeaderElection → Lock × LeaderElection
release_leadership lock e = if not e.leader then (lock, e) else (none, record { leader = false })
