-- ===== src/Smtp/Lifetime.antt =====
-- The life of a session in smtp/smtp_session.cpp: `run` always ends, closes the socket once, and
-- gives its place in the rate limiter back once if it got one.
use email_server_backend.Base.{
  ℕ, zero, suc, ◌+◌, ◌≤◌, ◌<◌, ◌≡◌, refl, ap, ◌∙◌, inl, inr, Bool, true, false, List, ◌++◌, arith,
  text, Bytes, length, Bool-cases, if◌then◌else◌, is_empty, Option, some,
}
use email_server_backend.Smtp.Link.{Link, Recv, Received, got, ended, read_line}
use email_server_backend.Smtp.Session.{Session, Env, is_timeout_exceeded, update_activity}
use email_server_backend.Smtp.Handlers.{handle_starttls, ehlo_lines, reply}
use email_server_backend.Smtp.Dispatch.{
  Verb, ehlo, starttls, auth, message, dispatch, handle_command,
}
use email_server_backend.Smtp.Lines.{ReceivedInv, Continues, read_line-ReceivedInv}
use email_server_backend.Smtp.Data.{handle_data-OnlyTalks}
use email_server_backend.Smtp.Trace.{
  send_multiline_response-Spoke, handle_data-Modest, closes_in, releases_in,
}
use email_server_backend.Smtp.Run.{
  start_session, serve_line, after_line, serve_received, serve, clean_up, run,
}

abbrev bit : Bool → ℕ
bit true = 1
bit false = 0

-- The socket is open or was closed, once; the connection has not been released.
pub record IsAlive (s : Session) : Type 0 where
  pub one_close : closes_in s.trace + bit s.is_open ≡ 1
  pub no_release : releases_in s.trace ≡ 0

record Lives (s s' : Session) : Type 0 where
  alive : IsAlive s'
  read : length s'.input ≤ length s.input

dispatch-Lives :
    (env : Env) (v : Verb) (args : Bytes) (s : Session)
    → s.is_open ≡ true
    → IsAlive s
    → Lives s (dispatch env v args s)
unfolding dispatch handle_starttls
dispatch-Lives env ehlo args s o h =
    ground (arith, send_multiline_response-Spoke (ehlo_lines env s.tls_active) s.link)
dispatch-Lives env message args s o h =
    ground (arith, handle_data-OnlyTalks env s, handle_data-Modest env s)
dispatch-Lives env starttls args s o h = ground arith
dispatch-Lives env auth args s o h = ground arith
dispatch-Lives env _ args s o h = ground arith

handle_command-Lives :
    (env : Env) (line : Bytes) (s : Session)
    → s.is_open ≡ true
    → IsAlive s
    → Lives s (handle_command env line s)
unfolding handle_command
handle_command-Lives env line s o h = dispatch-Lives env _ _ s o h

Continues-IsAlive :
    (s : Session) (l : Link) → Continues s.link l → IsAlive s → IsAlive (record s { link = l })
Continues-IsAlive s l c h = ground (arith, c.told, c.same_open)

-- The loop ends with a session that is alive.
abbrev Ends : Option Session → Type 0
Ends r = (s : Session) × (r ≡ some s) × IsAlive s

module _ (env : Env) (next : Session → Option Session) (s : Session)
    (later : (s' : Session)
      → length s'.input < length s.input
      → s'.is_open ≡ true
      → IsAlive s'
      → Ends (next s')) where
  after_line-Ends :
      (s' : Session) (line : Bytes)
      → length s'.input < length s.input
      → s'.is_open ≡ true
      → IsAlive s'
      → Ends (after_line next s' (serve_line env line s'))
  unfolding after_line serve_line update_activity
  after_line-Ends s' line h o a = elim (Bool-cases (is_timeout_exceeded env s')) [
    | inl late ↦ rw (late, after_line) (_, refl, ground arith)
    | inr on_time ↦
        rw (on_time, after_line)
          (let done = handle_command env line (update_activity env s') in
            let k =
              handle_command-Lives env line (update_activity env s') o
                (record { one_close = a.one_close; no_release = a.no_release }) in
            elim (Bool-cases done.is_open) [
              | inl up ↦ rw up (later done (omega (arith, k.read)) up k.alive)
              | inr down ↦ rw down (done, refl, k.alive)
            ])
  ]

  serve_received-Ends :
      s.is_open ≡ true
      → IsAlive s
      → (r : Received) → ReceivedInv s.link r
      → Ends (serve_received env next s r)
  unfolding serve_received
  serve_received-Ends o a (ended l) h = (_, refl, Continues-IsAlive s l h a)
  serve_received-Ends o a (got line l) h =
      let up : l.is_open ≡ true = ap (λ (k : Link). k.is_open) h.2 ∙ o in
      let alive : IsAlive (record s { link = l }) = record {
        one_close = rw h.2 a.one_close;
        no_release = rw h.2 a.no_release;
      } in
      elim (Bool-cases (is_empty line)) [
        | inl blank ↦ rw blank (later (record s { link = l }) h.3 up alive)
        | inr some_line ↦ rw some_line (after_line-Ends (record s { link = l }) line h.3 up alive)
      ]

serve-Ends :
    (fuel : ℕ) (env : Env) (s : Session)
    → length s.input < fuel
    → s.is_open ≡ true
    → IsAlive s
    → Ends (serve fuel env s)
unfolding serve
serve-Ends zero env s f o a = elim f [ ]
serve-Ends (suc fuel) env s f o a =
    serve_received-Ends env (serve fuel env) s
      (λ s' h o' a'. serve-Ends fuel env s' (omega arith) o' a') o a (read_line s.link)
      (read_line-ReceivedInv s.link)

clean_up-closed :
    (s : Session)
    → IsAlive s
    → (closes_in (clean_up s).trace ≡ 1) × (releases_in (clean_up s).trace ≡ 1)
unfolding clean_up
clean_up-closed s a = ground arith

-- What `run` makes of a session whose socket is open.
run-IsAlive :
    (env : Env) (allowed : Bool) (s : Session)
    → s.is_open ≡ true
    → IsAlive s
    → (s' : Session) × (run env allowed s ≡ some s')
      × (closes_in s'.trace ≡ 1)
      × (releases_in s'.trace ≡ (if allowed then 1 else 0))
unfolding run
run-IsAlive env false s o a = (_, refl, ground arith, ground arith)
run-IsAlive env true s o a =
    let greeted = reply (text "220 " ++ (env.domain ++ text " ESMTP ready")) s in
    let (s', e, alive) =
      serve-Ends (suc (length s.input)) env greeted (omega arith) o
        (record { one_close = a.one_close; no_release = a.no_release }) in
    let closed = clean_up-closed s' alive in (clean_up s', rw e, closed.0, closed.1)

-- Whatever the peer sends, a session over a fresh socket ends, has closed its socket exactly once,
-- and has released its connection once if the rate limiter allowed it, and never otherwise.
pub run-start_session :
    (env : Env) (tls allowed : Bool) (ip : Bytes) (input : List Recv)
    → (s : Session) × (run env allowed (start_session env tls ip input) ≡ some s)
      × (closes_in s.trace ≡ 1)
      × (releases_in s.trace ≡ (if allowed then 1 else 0))
unfolding start_session
run-start_session env tls allowed ip input =
    run-IsAlive env allowed (start_session env tls ip input) (ground arith)
      (record { one_close = ground arith; no_release = ground arith })
