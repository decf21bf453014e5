-- ===== src/Imap/Server.antt =====
-- `run` of imap/imap_session.cpp, and the thread that serves one client in imap/imap_server.cpp.
use email_server_backend.Base.{
  ℕ, zero, suc, Bool, true, false, not, [], ◌∷◌, ◌++◌, Bytes, text, is_empty, length, if◌then◌else◌,
  none, some,
}
use email_server_backend.Imap.Session.{Env, Event, Session, send, receive_line, handle_command}

-- The session ends, an exception leaves the thread, which ends the process, or the fuel is used
-- up.
pub data Outcome : Type 0 where
  ended : Session → Outcome
  terminated out_of_fuel : Outcome

-- A round reads at least one byte.
unfoldable pub serve : ℕ → Env → Session → Outcome
serve zero env s = out_of_fuel
serve (suc fuel) env s = elim (receive_line s.input) [
  | none ↦ ended s
  | some r ↦
      let read = record s { input = r.1 } in
      if is_empty r.0 then serve fuel env read else elim (handle_command env r.0 read) [
        | none ↦ terminated
        | some done ↦ if not done.sock_open then ended done else serve fuel env done
      ]
]

unfoldable pub greet : Env → Session → Session
unfolding send
greet env s =
    if s.tls_active
    then send
        (text "* OK [CAPABILITY IMAP4rev1 AUTH=LOGIN] "
          ++ (env.domain ++ text " IMAPS ready (TLS)"))
        s
    else send
        (text "* OK [CAPABILITY IMAP4rev1 STARTTLS] "
          ++ (env.domain ++ text " IMAP4rev1 Service Ready"))
        s

unfoldable pub close : Session → Session
close s = if s.sock_open then record s { trace = Event.closes ∷ s.trace; sock_open = false } else s

unfoldable pub finish_session : Outcome → Outcome
unfolding close
finish_session (Outcome.ended s) = Outcome.ended (close s)
finish_session o = o

unfoldable pub run : Env → Session → Outcome
run env s = finish_session (serve (suc (length s.input)) env (greet env s))

-- The constructors: a session over an accepted socket, under TLS or not.
unfoldable pub new_session : Bool → Bytes → Session
new_session tls input = record {
  tls_active = tls;
  sock_open = true;
  input = input;
  trace = [];
  handshakes = 0;
  authed = false;
  username = [];
}

-- The thread: the session, and then the socket is closed.
unfoldable pub finish_client : Outcome → Outcome
finish_client (Outcome.ended s) = Outcome.ended (record s { trace = Event.closes ∷ s.trace })
finish_client o = o

unfoldable pub serve_client : Env → Bool → Bytes → Outcome
serve_client env tls input = finish_client (run env (new_session tls input))
