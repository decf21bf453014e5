-- ===== src/Lifecycle/Registration.antt =====
-- Subsystems that are registered with `AppLifecycle` (core/app_lifecycle.cpp) one after the other.
use email_server_backend.Base.{
  ◌≡◌, refl, subst, Bool, List, [], ◌∷◌, ◌++◌, append_assoc, append-nil, leb, Option, none, some,
}
use mathlib.Core.List.{Perm}
use mathlib.Core.List.Perm
use email_server_backend.Lifecycle.Order.{IsOrdered}
use email_server_backend.Lifecycle.App.{rank, stopped, Subsystem, App, register_subsystem}

-- The lowest phase first.
abbrev pub starts_first : Subsystem → Subsystem → Bool
starts_first s t = leb (rank s.phase) (rank t.phase)

abbrev pub register_all :
    (List Subsystem → List Subsystem)
    → (List Subsystem → List Subsystem)
    → List Subsystem
    → App
    → Option App
register_all sort_phases sort_orders [] a = some a
register_all sort_phases sort_orders (s ∷ ss) a =
    elim (register_subsystem sort_phases sort_orders s a) [
      | none ↦ none
      | some a' ↦ register_all sort_phases sort_orders ss a'
    ]

module _ (sort_phases sort_orders : List Subsystem → List Subsystem)
    (phases-Perm : (ss : List Subsystem) → Perm (sort_phases ss) ss)
    (phases-IsOrdered : (ss : List Subsystem) → IsOrdered starts_first (sort_phases ss)) where
  register_subsystem-stopped :
      (s : Subsystem) (a : App)
      → a.state ≡ stopped
      → register_subsystem sort_phases sort_orders s a
        ≡ some (record a { subsystems = sort_phases (a.subsystems ++ s ∷ []) })
  unfolding register_subsystem
  register_subsystem-stopped s a e = simp (e, register_subsystem)

  -- Subsystems that are registered with a stopped process are all kept, the ones of lower phases
  -- before those of higher ones, in whatever order they were registered.
  pub register_all-IsOrdered :
      (ss : List Subsystem) (a : App)
      → a.state ≡ stopped
      → IsOrdered starts_first a.subsystems
      → (order : List Subsystem) × Perm order (a.subsystems ++ ss)
        × IsOrdered starts_first order
        × (register_all sort_phases sort_orders ss a ≡ some (record a { subsystems = order }))
  register_all-IsOrdered [] a e h =
      (a.subsystems, rw (append-nil a.subsystems) (Perm.refl a.subsystems), h, refl)
  register_all-IsOrdered (s ∷ ss) a e h =
      let sorted = sort_phases (a.subsystems ++ s ∷ []) in
      let (order, same, ordered, done) =
        register_all-IsOrdered ss (record a { subsystems = sorted }) e
          (phases-IsOrdered (a.subsystems ++ s ∷ [])) in
      (
        order,
        Perm.trans same (
            subst (λ l. Perm (sorted ++ ss) l) (append_assoc a.subsystems (s ∷ []) ss)
              (Perm.append_right ss (phases-Perm (a.subsystems ++ s ∷ [])))),
        ordered,
        rw (register_subsystem-stopped s a e, register_all) done,
      )
