-- ===== src/Lifecycle/Shutdown.antt =====
-- `ShutdownCoordinator` of core/shutdown_coordinator.cpp. What the functions of a hook do is not
-- part of the model: a call is recorded, whether or not it throws. std::sort is a parameter, and
-- `in_time` says of a hook whether the time for draining is left when its turn comes.
use email_server_backend.Base.{
  ℕ, Bool, true, ◌&&◌, List, [], ◌∷◌, ◌++◌, Bytes, reverse, if◌then◌else◌,
}

-- struct ShutdownHook: its name, which of its functions are set, and its priority, taken from 0 on.
pub record ShutdownHook : Type 0 where
  pub name : Bytes
  pub has_stop_accepting : Bool
  pub has_drain : Bool
  pub has_shutdown : Bool
  pub priority : ℕ

pub data Call : Type 0 where
  stops_accepting drains shuts_down : Bytes → Call

pub record Coordinator : Type 0 where
  pub hooks : List ShutdownHook
  pub shutting_down : Bool
  pub shutdown_complete : Bool
  pub calls : List Call

-- The calls that a loop makes of the hooks that `set` selects.
unfoldable pub calls_of : (ShutdownHook → Bool) → (Bytes → Call) → List ShutdownHook → List Call
calls_of set call [] = []
calls_of set call (h ∷ hs) =
    let rest = calls_of set call hs in if set h then call h.name ∷ rest else rest

module _ (sort_priorities : List ShutdownHook → List ShutdownHook)
    (in_time : ShutdownHook → Bool) where
  unfoldable pub register_hook : ShutdownHook → Coordinator → Coordinator
  register_hook h c = record c { hooks = sort_priorities (c.hooks ++ h ∷ []) }

  -- The second loop of the three is the one that watches the time, the last one goes backwards.
  unfoldable pub initiate_shutdown : Coordinator → Coordinator
  initiate_shutdown c = if c.shutting_down then c else record c {
    shutting_down = true;
    shutdown_complete = true;
    calls =
        c.calls
        ++ (calls_of (λ h. h.has_stop_accepting) stops_accepting c.hooks
            ++ (calls_of (λ h. h.has_drain && in_time h) drains c.hooks
                ++ calls_of (λ h. h.has_shutdown) shuts_down (reverse c.hooks)));
  }
