-- ===== src/Lifecycle/App.antt =====
-- `AppLifecycle` of core/app_lifecycle.cpp. What a subsystem's functions do is its outcome; that
-- they
-- were called is recorded. std::sort leaves the order of equal keys open, so the two sorts are
-- parameters. A function that locks the mutex which its own caller holds does not go on: that is
-- the
-- outcome `relocks`.
use email_server_backend.Base.{
  ℕ, Bool, true, false, ◌||◌, List, [], ◌∷◌, ◌++◌, Bytes, if◌then◌else◌, Option, none, some,
}

-- enum class Phase, in its order.
pub data Phase : Type 0 where
  config logging tls storage services servers : Phase

abbrev pub rank : Phase → ℕ
rank config = 0
rank logging = 1
rank tls = 2
rank storage = 3
rank services = 4
rank servers = 5

pub data State : Type 0 where
  starting ready stopping stopped : State

pub data Init : Type 0 where
  succeeds fails throws : Init

-- `has_shutdown` is whether the function shutdown is set. A shutdown order is taken from 0 on.
pub record Subsystem : Type 0 where
  pub name : Bytes
  pub phase : Phase
  pub shutdown_order : ℕ
  pub init : Init
  pub has_shutdown : Bool

pub data Event : Type 0 where
  inits shuts_down : Bytes → Event

pub record App : Type 0 where
  pub state : State
  pub subsystems : List Subsystem
  pub initialized : List Subsystem
  pub events : List Event

abbrev pub new_app : App
new_app = record { state = stopped; subsystems = []; initialized = []; events = [] }

abbrev pub is_stopped : State → Bool
is_stopped stopped = true
is_stopped _ = false

abbrev pub is_stopping : State → Bool
is_stopping stopping = true
is_stopping _ = false

abbrev pub call : Event → App → App
call e a = record a { events = a.events ++ e ∷ [] }

pub data Outcome : Type 0 where
  returns : Bool → App → Outcome
  relocks : App → Outcome

-- The calls of the shutdown functions that are set.
unfoldable pub shutdown_calls : List Subsystem → List Event
shutdown_calls [] = []
shutdown_calls (s ∷ ss) =
    let rest = shutdown_calls ss in if s.has_shutdown then shuts_down s.name ∷ rest else rest

-- The loop of `initialize`, which holds the mutex when it calls `shutdown`.
unfoldable pub init_all : List Subsystem → App → Outcome
init_all [] a = returns true (record a { state = ready })
init_all (s ∷ ss) a = elim s.init [
  | succeeds ↦
      init_all ss
        (record a { events = a.events ++ inits s.name ∷ []; initialized = a.initialized ++ s ∷ [] })
  | fails ↦ relocks (call (inits s.name) a)
  | throws ↦ relocks (call (inits s.name) a)
]

unfoldable pub initialize : App → Outcome
initialize a =
    if is_stopped a.state
    then init_all a.subsystems (record a { state = starting })
    else returns false a

module _ (sort_phases sort_orders : List Subsystem → List Subsystem) where
  -- `none` is std::logic_error.
  unfoldable pub register_subsystem : Subsystem → App → Option App
  register_subsystem s a =
      if is_stopped a.state
      then some (record a { subsystems = sort_phases (a.subsystems ++ s ∷ []) })
      else none

  unfoldable pub shutdown : App → App
  shutdown a = if is_stopping a.state || is_stopped a.state then a else record {
    state = stopped;
    subsystems = [];
    initialized = [];
    events = a.events ++ shutdown_calls (sort_orders a.initialized);
  }
