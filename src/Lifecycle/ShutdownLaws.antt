-- ===== src/Lifecycle/ShutdownLaws.antt =====
-- The order in which `ShutdownCoordinator` (core/shutdown_coordinator.cpp) calls its hooks.
use email_server_backend.Base.{
  ◌≡◌, refl, ap, ◌∙◌, Bool, true, false, ◌&&◌, List, [], ◌∷◌, ◌++◌, leb, reverse,
}
use mathlib.Core.List.{Perm}
use email_server_backend.Lifecycle.Order.{IsOrdered}
use email_server_backend.Lifecycle.Shutdown.{
  ShutdownHook, stops_accepting, drains, shuts_down, Coordinator, calls_of, register_hook,
  initiate_shutdown,
}

-- The lowest priority first.
abbrev pub goes_first : ShutdownHook → ShutdownHook → Bool
goes_first h k = leb h.priority k.priority

abbrev pub initiate_again :
    (List ShutdownHook → List ShutdownHook) → List (ShutdownHook → Bool) → Coordinator → Coordinator
initiate_again sort [] c = c
initiate_again sort (in_time ∷ rest) c = initiate_again sort rest (initiate_shutdown sort in_time c)

module _ (sort : List ShutdownHook → List ShutdownHook)
    (sort-Perm : (hs : List ShutdownHook) → Perm (sort hs) hs)
    (sort-IsOrdered : (hs : List ShutdownHook) → IsOrdered goes_first (sort hs)) where
  initiate_shutdown-done :
      (in_time : ShutdownHook → Bool) (c : Coordinator)
      → c.shutting_down ≡ true
      → initiate_shutdown sort in_time c ≡ c
  unfolding initiate_shutdown
  initiate_shutdown-done in_time c e = simp (e, initiate_shutdown)

  again-done :
      (rest : List (ShutdownHook → Bool)) (c : Coordinator)
      → c.shutting_down ≡ true
      → initiate_again sort rest c ≡ c
  again-done [] c e = refl
  again-done (in_time ∷ rest) c e =
      ap (initiate_again sort rest) (initiate_shutdown-done in_time c e) ∙ again-done rest c e

  -- However often the shutdown is initiated after a hook was registered, the hooks are called once:
  -- first those that stop accepting, then those that drain in the time left, both lowest priority
  -- first, and then the final ones, in the reverse order.
  pub register_hook-initiate_shutdown :
      (h : ShutdownHook) (c : Coordinator) (in_time : ShutdownHook → Bool)
      (rest : List (ShutdownHook → Bool))
      → c.shutting_down ≡ false
      → (order : List ShutdownHook) × Perm order (c.hooks ++ h ∷ [])
        × IsOrdered goes_first order
        × ((initiate_again sort (in_time ∷ rest) (register_hook sort in_time h c)).calls
            ≡ c.calls
              ++ (calls_of (λ h. h.has_stop_accepting) stops_accepting order
                  ++ (calls_of (λ h. h.has_drain && in_time h) drains order
                      ++ calls_of (λ h. h.has_shutdown) shuts_down (reverse order))))
  unfolding register_hook initiate_shutdown
  register_hook-initiate_shutdown h c in_time rest e =
      let hooks = sort (c.hooks ++ h ∷ []) in
      (
        hooks,
        sort-Perm (c.hooks ++ h ∷ []),
        sort-IsOrdered (c.hooks ++ h ∷ []),
        rw (e, initiate_shutdown) (ap (λ c'. c'.calls) (again-done rest _ refl)),
      )
