-- ===== src/Lifecycle/AppLaws.antt =====
-- The life of a process under `AppLifecycle` (core/app_lifecycle.cpp).
use email_server_backend.Base.{
  ◌≡◌, ◌≢◌, refl, ap, ◌∙◌, ◌⊎◌, inl, inr, Bool, true, List, [], ◌∷◌, ◌++◌, leb, map, append_assoc,
  append-nil, All,
}
use mathlib.Core.List.{Perm}
use email_server_backend.Lifecycle.Order.{IsOrdered}
use email_server_backend.Lifecycle.App.{
  starting, ready, stopped, Init, succeeds, fails, throws, Subsystem, Event, inits, App, returns,
  relocks, shutdown_calls, init_all, initialize, shutdown,
}

abbrev pub init_calls : List Subsystem → List Event
init_calls = map (λ s. inits s.name)

abbrev started : Subsystem → App → App
started s a = record a {
  events = a.events ++ inits s.name ∷ [];
  initialized = a.initialized ++ s ∷ [];
}

init_all-started :
    (s : Subsystem) (ss : List Subsystem) (a : App)
    → s.init ≡ succeeds
    → init_all (s ∷ ss) a ≡ init_all ss (started s a)
unfolding init_all
init_all-started s ss a h = simp (h, init_all)

initialize-stopped :
    (a : App)
    → a.state ≡ stopped
    → initialize a ≡ init_all a.subsystems (record a { state = starting })
unfolding initialize
initialize-stopped a e = rw (e, initialize) refl

init_all-succeeds :
    (ss : List Subsystem) (a : App)
    → All (λ s. s.init ≡ succeeds) ss
    → init_all ss a
      ≡ returns true (record a {
        state = ready;
        events = a.events ++ init_calls ss;
        initialized = a.initialized ++ ss;
      })
unfolding init_all
init_all-succeeds [] a h = rw (append-nil a.events, append-nil a.initialized) refl
init_all-succeeds (s ∷ ss) a (h, hs) =
    init_all-started s ss a h
    ∙ init_all-succeeds ss (started s a) hs
    ∙ rw
        (
          append_assoc a.events (inits s.name ∷ []) (init_calls ss),
          append_assoc a.initialized (s ∷ []) ss,
        )
        refl

Init-cases : (i : Init) → (i ≡ succeeds) ⊎ ((i ≡ fails) ⊎ (i ≡ throws))
Init-cases succeeds = inl refl
Init-cases fails = inr (inl refl)
Init-cases throws = inr (inr refl)

init_all-stops :
    (before : List Subsystem) (s : Subsystem) (after : List Subsystem) (a : App)
    → All (λ s'. s'.init ≡ succeeds) before
    → s.init ≢ succeeds
    → init_all (before ++ s ∷ after) a
      ≡ relocks (record a {
        events = a.events ++ init_calls (before ++ s ∷ []);
        initialized = a.initialized ++ before;
      })
unfolding init_all
init_all-stops [] s after a h n = elim (Init-cases s.init) [
  | inl ok ↦ absurd (n ok)
  | inr (inl bad) ↦ rw (bad, init_all, append-nil a.initialized) refl
  | inr (inr bad) ↦ rw (bad, init_all, append-nil a.initialized) refl
]
init_all-stops (s' ∷ before) s after a (h, hs) n =
    init_all-started s' (before ++ s ∷ after) a h
    ∙ init_all-stops before s after (started s' a) hs n
    ∙ rw
        (
          append_assoc a.events (inits s'.name ∷ []) (init_calls (before ++ s ∷ [])),
          append_assoc a.initialized (s' ∷ []) before,
        )
        refl

-- Where a subsystem does not start, `initialize` does not return: it locks its mutex again in
-- `shutdown`, after it started the subsystems before that one, none of which is shut down.
pub initialize_failure :
    (a : App) (before : List Subsystem) (s : Subsystem) (after : List Subsystem)
    → a.state ≡ stopped
    → a.subsystems ≡ before ++ s ∷ after
    → All (λ s'. s'.init ≡ succeeds) before
    → s.init ≢ succeeds
    → (b : App) × (initialize a ≡ relocks b)
      × (b.state ≡ starting)
      × (b.initialized ≡ a.initialized ++ before)
      × (b.events ≡ a.events ++ init_calls (before ++ s ∷ []))
initialize_failure a before s after e found h n = (
  _,
  initialize-stopped a e
      ∙ ap (λ ss. init_all ss (record a { state = starting })) found
      ∙ init_all-stops before s after (record a { state = starting }) h n,
  refl,
  refl,
  refl,
)

-- The highest shutdown order first.
abbrev pub goes_first : Subsystem → Subsystem → Bool
goes_first s t = leb t.shutdown_order s.shutdown_order

module _ (sort_phases sort_orders : List Subsystem → List Subsystem)
    (orders-Perm : (ss : List Subsystem) → Perm (sort_orders ss) ss)
    (orders-IsOrdered : (ss : List Subsystem) → IsOrdered goes_first (sort_orders ss)) where
  -- A stopped process whose subsystems all start is ready after `initialize`, which starts them in
  -- their order, and `shutdown` then calls the shutdown functions of the same subsystems, the
  -- highest
  -- shutdown order first, and leaves the process stopped, with no subsystem.
  pub initialize-shutdown :
      (a : App)
      → a.state ≡ stopped
      → a.initialized ≡ []
      → All (λ s. s.init ≡ succeeds) a.subsystems
      → (b : App) × (down : List Subsystem) × (initialize a ≡ returns true b)
        × (b.state ≡ ready)
        × Perm down a.subsystems
        × IsOrdered goes_first down
        × (shutdown sort_phases sort_orders b ≡ record {
          state = stopped;
          subsystems = [];
          initialized = [];
          events = (a.events ++ init_calls a.subsystems) ++ shutdown_calls down;
        })
  unfolding shutdown
  initialize-shutdown a e none_yet h = (
    record a {
      state = ready;
      events = a.events ++ init_calls a.subsystems;
      initialized = a.subsystems;
    },
    sort_orders a.subsystems,
    initialize-stopped a e
        ∙ init_all-succeeds a.subsystems (record a { state = starting }) h
        ∙ rw none_yet refl,
    refl,
    orders-Perm a.subsystems,
    orders-IsOrdered a.subsystems,
    refl,
  )
