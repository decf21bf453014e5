-- ===== src/Smtp/Run.antt =====
-- The constructors and `run` of smtp/smtp_session.cpp. The loop takes fuel: each round reads at
-- least one entry of the input, so one more than its length is enough.
use email_server_backend.Base.{
  ℕ, zero, suc, Bool, true, false, List, [], ◌++◌, Bytes, text, length, is_empty, if◌then◌else◌,
  Option, none, some,
}
use mathlib.Core.Option
use email_server_backend.Smtp.Link.{
  Link, Recv, emit, closes, releases, count, read_line, Received, got, ended, close_socket,
}
use email_server_backend.Smtp.Session.{
  Session, SmtpState, Env, is_timeout_exceeded, update_activity,
}
use email_server_backend.Smtp.Handlers.{reply}
use email_server_backend.Smtp.Dispatch.{handle_command}

-- A session over a fresh socket, with TLS from the first byte or not. Only the constructor
-- without TLS counts the session as active.
unfoldable pub start_session : Env → Bool → Bytes → List Recv → Session
unfolding count
start_session env tls ip input = record {
  link =
      (let l : Link = record { tls_active = tls; is_open = true; input = input; trace = [] } in
        if tls then l else count (text "smtp_active_sessions") l);
  state = SmtpState.connected;
  last_activity = env.now 0;
  readings = 1;
  authed = false;
  username = [];
  helo_domain = [];
  peer_ip = ip;
  sender = [];
  recipients = [];
}

-- The body of the loop for one line; `none` is the `break` after a timeout.
unfoldable pub serve_line : Env → Bytes → Session → Option Session
unfolding is_timeout_exceeded update_activity handle_command
serve_line env line s =
    if is_timeout_exceeded env s
    then none
    else some (handle_command env line (update_activity env s))

-- What follows a line that was served; `next` is the rest of the loop.
unfoldable pub after_line : (Session → Option Session) → Session → Option Session → Option Session
unfolding reply
after_line next s none = some (reply (text "421 Timeout - closing connection") s)
after_line next s (some s') = let rest = next s' in if s'.is_open then rest else some s'

unfoldable pub serve_received :
    Env → (Session → Option Session) → Session → Received → Option Session
unfolding after_line serve_line
serve_received env next s (ended l) = some (record s { link = l })
serve_received env next s (got line l) =
    let s' = record s { link = l } in
    let skipped = next s' in
    let served = after_line next s' (serve_line env line s') in
    if is_empty line then skipped else served

unfoldable pub serve : ℕ → Env → Session → Option Session
unfolding serve_received
serve zero env s = none
serve (suc fuel) env s = serve_received env (serve fuel env) s (read_line s.link)

-- The cleanup after the loop.
unfoldable pub clean_up : Session → Session
unfolding close_socket emit
clean_up s =
    let l = if s.is_open then close_socket s.link else s.link in
    record s { link = emit (releases s.peer_ip) l }

-- `allowed` is the answer of `RateLimiter::allowConnection(peerIp_)`. `none` means that the fuel
-- ran out.
unfoldable pub run : Env → Bool → Session → Option Session
unfolding reply clean_up emit
run env allowed s =
    let greeted = reply (text "220 " ++ (env.domain ++ text " ESMTP ready")) s in
    if allowed
    then Option.map clean_up (serve (suc (length s.input)) env greeted)
    else (let told = reply (text "421 Too many connections") greeted in
        some (record told { link = emit closes told.link }))
