-- ===== src/Imap/Session.antt =====
-- `ImapSession` of imap/imap_session.cpp, and the thread that serves a client in
-- imap/imap_server.cpp. The state is the record of the class's members, with the bytes that the
-- peer sends, after which `secureRecv` fails, and a trace of what the session does.
use mathlib.Core.Option
use email_server_backend.Base.{
  ℕ, suc, ◌-◌, Bool, true, false, not, ◌&&◌, ◌||◌, List, [], ◌∷◌, ◌++◌, Bytes, text, bytes_eq,
  is_empty, upper, length, take, drop, substr, leb, ◌==◌, if◌then◌else◌, Option, none, some,
}
use email_server_backend.Smtp.Dispatch.{skip_spaces, take_word, take_line, drop_space}
use email_server_backend.Validation.InputValidator.{is_valid_username}

-- `n` counts the handshakes of a session. `validate` is the authentication manager; `none` is an
-- exception, which nothing catches.
pub record Env : Type 0 where
  pub domain : Bytes
  pub handshake : ℕ → Bool
  pub validate : Bytes → Bytes → Option Bool

-- A line that is sent, under TLS or not, and a close of the socket. The latest event is the first
-- one.
pub data Event : Type 0 where
  sent : Bool → Bytes → Event
  closes : Event

-- `sock_open` is `sock_ != INVALID_SOCKET`.
pub record Session : Type 0 where
  pub tls_active : Bool
  pub sock_open : Bool
  pub input : Bytes
  pub trace : List Event
  pub handshakes : ℕ
  pub authed : Bool
  pub username : Bytes

unfoldable pub send : Bytes → Session → Session
send line s = record s { trace = sent s.tls_active line ∷ s.trace }

-- The line without its CR and LF, and the bytes behind it.
unfoldable pub receive_line : Bytes → Option (Bytes × Bytes)
receive_line [] = none
receive_line (c ∷ cs) =
    let rest = receive_line cs in
    if c == b'\r'
    then rest
    else if c == b'\n'
    then some ([], cs)
    else Option.map (λ r. (c ∷ r.0, r.1)) rest

-- The tag, the command and the arguments.
unfoldable pub split_imap : Bytes → Bytes × (Bytes × Bytes)
split_imap line =
    let (tag, rest) = take_word (skip_spaces line) in
    let (cmd, args) = take_word (skip_spaces rest) in (tag, (cmd, drop_space (take_line args)))

unfoldable pub handle_capability : Bytes → Session → Session
unfolding send
handle_capability tag s =
    let caps = if not s.tls_active then text " STARTTLS" else text " AUTH=LOGIN" in
    send (tag ++ text " OK CAPABILITY completed") (send (text "* CAPABILITY IMAP4rev1" ++ caps) s)

unfoldable pub handle_starttls : Env → Bytes → Session → Session
unfolding send
handle_starttls env tag s =
    let begun = send (tag ++ text " OK Begin TLS negotiation") s in
    let tried = record begun { handshakes = suc begun.handshakes } in
    if not (env.handshake s.handshakes)
    then send (tag ++ text " NO TLS negotiation failed") tried
    else record (send (text "* OK TLS active - resend CAPABILITY")
        (record tried { tls_active = true })) { authed = false; username = [] }

unfoldable pub strip_quotes : Bytes → Bytes
strip_quotes s =
    let n = length s in
    if leb 2 n && (bytes_eq (take 1 s) (b'"' ∷ []) && bytes_eq (drop (n - 1) s) (b'"' ∷ []))
    then substr s 1 (n - 2)
    else s

unfoldable pub log_in : Env → Bytes → Bytes → Bytes → Session → Option Session
unfolding send
log_in env tag user pass s =
    if not (is_valid_username user)
    then some (send (tag ++ text " NO LOGIN failed - invalid username") s)
    else elim (env.validate user pass) [
      | none ↦ none
      | some valid ↦
          if valid
          then some (
              send (tag ++ text " OK LOGIN completed")
                (record s { authed = true; username = user }))
          else some (send (tag ++ text " NO LOGIN failed") s)
    ]

unfoldable pub handle_login : Env → Bytes → Bytes → Session → Option Session
unfolding send strip_quotes
handle_login env tag args s =
    let (user, rest) = take_word (skip_spaces args) in
    let (pass, more) = take_word (skip_spaces rest) in
    if s.authed
    then some (send (tag ++ text " BAD Already authenticated") s)
    else if is_empty user || is_empty pass
    then some (send (tag ++ text " BAD LOGIN requires username and password") s)
    else log_in env tag (strip_quotes user) (strip_quotes pass) s

unfoldable pub handle_logout : Bytes → Session → Session
unfolding send
handle_logout tag s =
    let said = send (tag ++ text " OK LOGOUT completed") (send (text "* BYE Logging out") s) in
    record said { trace = closes ∷ said.trace; sock_open = false }

unfoldable pub handle_parts : Env → Bytes → Bytes → Bytes → Session → Option Session
unfolding send
handle_parts env tag ucmd args s =
    if bytes_eq ucmd (text "CAPABILITY")
    then some (handle_capability tag s)
    else if bytes_eq ucmd (text "STARTTLS")
    then some (handle_starttls env tag s)
    else if bytes_eq ucmd (text "LOGIN")
    then if s.tls_active
      then handle_login env tag args s
      else some (send (tag ++ text " BAD STARTTLS required first") s)
    else if bytes_eq ucmd (text "LOGOUT")
    then some (handle_logout tag s)
    else some (send (tag ++ text " BAD Unknown or unsupported command") s)

unfoldable pub handle_command : Env → Bytes → Session → Option Session
unfolding split_imap
handle_command env line s =
    let (tag, (cmd, args)) = split_imap line in handle_parts env tag (upper cmd) args s
