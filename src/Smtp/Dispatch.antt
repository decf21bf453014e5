-- ===== src/Smtp/Dispatch.antt =====
-- `splitCommand` and `handleCommand` of smtp/smtp_session.cpp.
use email_server_backend.Base.{
  Bool, true, false, not, ◌&&◌, [], ◌∷◌, Bytes, text, bytes_eq, upper, is_space, ◌==◌,
  if◌then◌else◌,
}
use email_server_backend.Smtp.Session.{
  Session, SmtpState, Env, tls_required_and_missing, start_tls_required_and_missing,
}
use email_server_backend.Smtp.Handlers.{
  reply, handle_ehlo, handle_helo, handle_starttls, handle_auth, handle_mail_from, handle_rcpt_to,
  handle_quit,
}
use email_server_backend.Smtp.Message.{handle_data}

-- iss >> word: the whitespace before it is skipped.
unfoldable pub skip_spaces : Bytes → Bytes
unfolding is_space
skip_spaces [] = []
skip_spaces (c ∷ cs) = let rest = skip_spaces cs in if is_space c then rest else c ∷ cs

-- The word at the front, and what is left behind it.
unfoldable pub take_word : Bytes → Bytes × Bytes
unfolding is_space
take_word [] = ([], [])
take_word (c ∷ cs) =
    let (word, rest) = take_word cs in if is_space c then ([], c ∷ cs) else (c ∷ word, rest)

-- std::getline: up to the first newline.
unfoldable pub take_line : Bytes → Bytes
take_line [] = []
take_line (c ∷ cs) = let rest = take_line cs in if c == b'\n' then [] else c ∷ rest

unfoldable pub drop_space : Bytes → Bytes
drop_space [] = []
drop_space (c ∷ cs) = if c == b' ' then cs else c ∷ cs

unfoldable pub split_command : Bytes → Bytes × Bytes
unfolding skip_spaces take_word take_line drop_space
split_command line =
    let (cmd, rest) = take_word (skip_spaces line) in (cmd, drop_space (take_line rest))

-- The tests of `handleCommand` on the upper-case command.
pub data Verb : Type 0 where
  ehlo helo starttls auth mail rcpt message quit rset noop other : Verb

unfoldable pub verb_of : Bytes → Verb
verb_of cmd =
    if bytes_eq cmd (text "EHLO")
    then ehlo
    else if bytes_eq cmd (text "HELO")
    then helo
    else if bytes_eq cmd (text "STARTTLS")
    then starttls
    else if bytes_eq cmd (text "AUTH")
    then auth
    else if bytes_eq cmd (text "MAIL")
    then mail
    else if bytes_eq cmd (text "RCPT")
    then rcpt
    else if bytes_eq cmd (text "DATA")
    then message
    else if bytes_eq cmd (text "QUIT")
    then quit
    else if bytes_eq cmd (text "RSET")
    then rset
    else if bytes_eq cmd (text "NOOP")
    then noop
    else other

unfoldable pub is_connected : SmtpState → Bool
is_connected SmtpState.connected = true
is_connected _ = false

unfoldable pub is_mail_from : SmtpState → Bool
is_mail_from SmtpState.mail_from = true
is_mail_from _ = false

unfoldable pub is_rcpt_to : SmtpState → Bool
is_rcpt_to SmtpState.rcpt_to = true
is_rcpt_to _ = false

abbrev bad_sequence : Session → Session
bad_sequence s = reply (text "503 Bad sequence of commands") s

abbrev must_starttls : Session → Session
must_starttls s = reply (text "530 Must issue STARTTLS first") s

unfoldable pub after_auth : Session → Session
after_auth s = if s.authed then record s { state = SmtpState.auth } else s

unfoldable pub dispatch : Env → Verb → Bytes → Session → Session
unfolding reply handle_ehlo handle_helo handle_auth handle_mail_from handle_rcpt_to handle_quit
    is_connected is_mail_from is_rcpt_to after_auth tls_required_and_missing
    start_tls_required_and_missing
dispatch env ehlo args s = record (handle_ehlo env args s) { state = SmtpState.helo_ehlo }
dispatch env helo args s = record (handle_helo env args s) { state = SmtpState.helo_ehlo }
dispatch env starttls args s =
    if is_connected s.state then bad_sequence s else handle_starttls env s
dispatch env auth args s =
    if is_connected s.state
    then bad_sequence s
    else if start_tls_required_and_missing env s
    then must_starttls s
    else after_auth (handle_auth env args s)
dispatch env mail args s =
    if is_connected s.state
    then bad_sequence s
    else if tls_required_and_missing env s
    then must_starttls s
    else if not s.authed
    then reply (text "530 Authentication required") s
    else record (handle_mail_from args s) { state = SmtpState.mail_from }
dispatch env rcpt args s =
    if not (is_mail_from s.state) && not (is_rcpt_to s.state)
    then bad_sequence s
    else if tls_required_and_missing env s
    then must_starttls s
    else record (handle_rcpt_to args s) { state = SmtpState.rcpt_to }
dispatch env message args s =
    if not (is_rcpt_to s.state)
    then bad_sequence s
    else if tls_required_and_missing env s
    then must_starttls s
    else record (handle_data env s) { state = SmtpState.mail_from; sender = []; recipients = [] }
dispatch env quit args s = handle_quit s
dispatch env rset args s = reply (text "250 OK") (record s {
  authed = false;
  username = [];
  sender = [];
  recipients = [];
  state = SmtpState.helo_ehlo;
})
dispatch env noop args s = reply (text "250 OK") s
dispatch env other args s = reply (text "502 Command not implemented") s

unfoldable pub handle_command : Env → Bytes → Session → Session
unfolding split_command verb_of dispatch upper
handle_command env line s =
    let (cmd, args) = split_command line in dispatch env (verb_of (upper cmd)) args s
