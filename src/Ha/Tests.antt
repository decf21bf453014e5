-- ===== src/Ha/Tests.antt =====
-- Two nodes under ha/: the node 1 leads and stops, and the node 2 takes over.
use email_server_backend.Base.{ℕ, ◌≡◌, refl, true, none}
use email_server_backend.Ha.Election.{Lock}
use email_server_backend.Ha.Controller.{
  Node, Phase, start, test, finish_work, wake, begin_stop, is_leader,
}
use email_server_backend.Ha.Nodes.{
  Step, starts, tests, works, wakes, stops, System, update, pick, first, Reach, begin, later,
}
use email_server_backend.Ha.Exclusion.{Reach-exclusive}
use email_server_backend.Ha.StaleLeader.{after_stop, after_turn, stop-is_leader}

abbrev moved : ℕ → System → Lock → Node → System
moved i s l n = record { lock = l; node = update s.node i n }

abbrev alone : System
unfolding start
alone = moved 1 first none (start (first.node 1))

abbrev leading : System
unfolding alone test
leading =
    moved 1 alone (test true 1 alone.lock (alone.node 1)).0
      (test true 1 alone.lock (alone.node 1)).1

leading-Reach : Reach leading
unfolding alone leading start
leading-Reach = later (later begin (pick 1 (starts refl))) (pick 1 (tests true refl))

Reach-exclusive_example : ◌≡◌ {A = ℕ} 1 1
unfolding leading alone start test
Reach-exclusive_example = Reach-exclusive leading-Reach 1 1 refl refl

abbrev rested : System
unfolding leading finish_work
rested = moved 1 leading leading.lock (finish_work (leading.node 1))

abbrev woken : System
unfolding rested wake
woken = moved 1 rested rested.lock (wake (rested.node 1))

abbrev told : System
unfolding woken begin_stop
told = moved 1 woken woken.lock (begin_stop (woken.node 1))

abbrev done : System
unfolding told test
done = moved 1 told (test true 1 told.lock (told.node 1)).0 (test true 1 told.lock (told.node 1)).1

abbrev joined : System
unfolding done start
joined = moved 2 done done.lock (start (done.node 2))

joined-Reach : Reach joined
unfolding alone leading rested woken told done joined start test finish_work wake begin_stop
joined-Reach =
    later
      (later
        (later (later (later leading-Reach (pick 1 (works refl))) (pick 1 (wakes refl)))
          (pick 1 (stops refl)))
        (pick 1 (tests true refl)))
      (pick 2 (starts refl))

stop-is_leader_example :
    let u = after_stop 1 joined in
    let t = after_turn 2 u in
    Step joined u
    × Step u t
    × Reach t
    × (is_leader (t.node 1) ≡ true)
    × (is_leader (t.node 2) ≡ true)
    × ((t.node 2).phase ≡ Phase.working)
    × ((t.node 1).phase ≡ Phase.absent)
unfolding alone leading rested woken told done joined start test finish_work wake begin_stop
stop-is_leader_example = stop-is_leader 1 2 joined joined-Reach refl refl refl refl refl refl refl
