-- ===== src/Lifecycle/Tests.antt =====
-- The theorems on starting and stopping at concrete subsystems and hooks.
use email_server_backend.Base.{◌≢◌, Bool, true, false, List, [], ◌∷◌, arith, text}
use email_server_backend.Lifecycle.Order.{IsOrdered, sort_by, sort_by-IsOrdered}
use email_server_backend.Lifecycle.App.{logging, servers, succeeds, fails, Subsystem, App, new_app}
use email_server_backend.Lifecycle.AppLaws.{goes_first}
use email_server_backend.Lifecycle.Registration.{starts_first}
use email_server_backend.Lifecycle.Shutdown.{ShutdownHook, Coordinator}
use email_server_backend.Lifecycle.ShutdownLaws.{initiate_again, register_hook-initiate_shutdown}
use email_server_backend.Lifecycle.ShutdownLaws

abbrev logger : Subsystem
logger = record {
  name = text "logger";
  phase = logging;
  shutdown_order = 1;
  init = succeeds;
  has_shutdown = true;
}

abbrev smtp : Subsystem
smtp = record {
  name = text "smtp";
  phase = servers;
  shutdown_order = 9;
  init = succeeds;
  has_shutdown = true;
}

abbrev broken : Subsystem
broken = record smtp { init = fails }

abbrev app : App
app = record new_app { subsystems = logger ∷ smtp ∷ [] }

abbrev broken_app : App
broken_app = record new_app { subsystems = logger ∷ broken ∷ [] }

broken_fails : broken.init ≢ succeeds
broken_fails = ground arith

sort_orders-IsOrdered : (ss : List Subsystem) → IsOrdered goes_first (sort_by goes_first ss)
sort_orders-IsOrdered =
    sort_by-IsOrdered goes_first (λ s t e. ground arith) (λ s t u e k. ground arith)

sort_phases-IsOrdered : (ss : List Subsystem) → IsOrdered starts_first (sort_by starts_first ss)
sort_phases-IsOrdered =
    sort_by-IsOrdered starts_first (λ s t e. ground arith) (λ s t u e k. ground arith)

abbrev hook : ShutdownHook
hook = record {
  name = text "queue";
  has_stop_accepting = true;
  has_drain = true;
  has_shutdown = true;
  priority = 2;
}

abbrev coordinator : Coordinator
coordinator = record {
  hooks = record hook { name = text "smtp"; priority = 1 } ∷ [];
  shutting_down = false;
  shutdown_complete = false;
  calls = [];
}

abbrev in_time : ShutdownHook → Bool
in_time h = true

sort_priorities-IsOrdered :
    (hs : List ShutdownHook)
    → IsOrdered ShutdownLaws.goes_first (sort_by ShutdownLaws.goes_first hs)
sort_priorities-IsOrdered =
    sort_by-IsOrdered ShutdownLaws.goes_first (λ s t e. ground arith) (λ s t u e k. ground arith)
