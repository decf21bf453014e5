-- ===== src/Smtp/ServerTests.antt =====
-- Two clients of smtp/smtp_server.cpp, one of which fails in its handshake.
use email_server_backend.Base.{◌≡◌, List, [], ◌∷◌, text}
use email_server_backend.Integers.{pos}
use email_server_backend.Smtp.Server.{Server, SessionEnd, Client, serve_clients}
use email_server_backend.Smtp.Slots.{lost, add_slots, serve_clients-active}

abbrev listener : Server
listener = record {
  manager = record {
    active_connections = pos 0;
    global_max = 5;
    per_ip_max = 3;
    ip_connections = [];
  };
  limiter = record { conn = []; cmd = []; auth = [] };
  client_sockets = [];
  closed = [];
  recent_failures = 0;
  last_failure_time = 0;
}

abbrev visitor : SessionEnd → Client
visitor outcome = record {
  socket = 7;
  ip = text "1.2.3.4";
  accepted = 5;
  begun = 5;
  ended = 6;
  outcome = outcome;
}

abbrev visitors : List Client
visitors = visitor SessionEnd.returned ∷ visitor SessionEnd.handshake_failed ∷ []

serve_clients-active_example :
    (serve_clients visitors listener).manager.active_connections
    ≡ add_slots (lost visitors listener) (pos 0)
serve_clients-active_example = serve_clients-active visitors listener
