-- ===== src/Smtp/Policy.antt =====
-- What the commands of smtp/smtp_session.cpp keep true: the order of the states, who may store a
-- message, and the TLS policy.
use email_server_backend.Base.{
  ℕ, ◌≡◌, ◌≢◌, refl, ◌⊎◌, inl, inr, Bool, true, false, not, ◌&&◌, [], ◌∷◌, arith, Bytes, upper,
}
use email_server_backend.Smtp.Session.{Session, Env, SmtpState, is_timeout_exceeded}
use email_server_backend.Smtp.Handlers.{handle_starttls, ehlo_lines}
use email_server_backend.Smtp.Dispatch.{
  Verb, ehlo, starttls, auth, rcpt, message, dispatch, is_mail_from, is_rcpt_to, is_connected,
  handle_command, split_command, verb_of,
}
use email_server_backend.Smtp.Data.{handle_data-OnlyTalks}
use email_server_backend.Smtp.Trace.{send_multiline_response-Spoke, stored_in}

-- Nobody is authenticated before the greeting, and DATA is no state between commands.
pub record StateInv (s : Session) : Type 0 where
  pub greeted : (s.authed ≡ false) ⊎ (is_connected s.state ≡ false)
  pub not_in_data : s.state ≢ SmtpState.in_data

pub dispatch-StateInv :
    (env : Env) (v : Verb) (args : Bytes) (s : Session)
    → StateInv s
    → StateInv (dispatch env v args s)
unfolding dispatch handle_starttls
dispatch-StateInv env message args s h = ground (arith, handle_data-OnlyTalks env s)
dispatch-StateInv env _ args s h = ground arith

-- A mail transaction is open.
abbrev pub in_transaction : SmtpState → Bool
in_transaction SmtpState.mail_from = true
in_transaction SmtpState.rcpt_to = true
in_transaction _ = false

-- Who has a transaction open is authenticated.
abbrev pub IsTrusted : Session → Type 0
IsTrusted s = (in_transaction s.state ≡ false) ⊎ (s.authed ≡ true)

-- The commands that cannot begin TLS here.
abbrev pub KeepsTls : Verb → Session → Type 0
KeepsTls v s = (s.tls_active ≡ true) ⊎ (v ≢ starttls)

dispatch-IsTrusted :
    (env : Env) (v : Verb) (args : Bytes) (s : Session)
    → KeepsTls v s
    → IsTrusted s
    → IsTrusted (dispatch env v args s)
unfolding dispatch handle_starttls is_mail_from is_rcpt_to
dispatch-IsTrusted env message args s k h = ground (arith, handle_data-OnlyTalks env s)
dispatch-IsTrusted env starttls args s (inl t) h = ground arith
dispatch-IsTrusted env starttls args s (inr n) h = absurd (n refl)
dispatch-IsTrusted env _ args s k h = ground arith

-- TLS is never given up.
dispatch-tls :
    (env : Env) (v : Verb) (args : Bytes) (s : Session)
    → s.tls_active ≡ true
    → (dispatch env v args s).tls_active ≡ true
unfolding dispatch handle_starttls
dispatch-tls env ehlo args s t =
    ground (arith, send_multiline_response-Spoke (ehlo_lines env s.tls_active) s.link)
dispatch-tls env message args s t = ground (arith, handle_data-OnlyTalks env s)
dispatch-tls env _ args s t = ground arith

-- The conditions under which a command may hand a message to the store.
pub record MayStore (env : Env) (s : Session) : Type 0 where
  pub in_rcpt_to : s.state ≡ SmtpState.rcpt_to
  pub tls_policy : env.tls_required && not s.tls_active ≡ false

dispatch-MayStore :
    (env : Env) (v : Verb) (args : Bytes) (s : Session)
    → (stored_in (dispatch env v args s).trace ≡ stored_in s.trace) ⊎ MayStore env s
unfolding dispatch handle_starttls is_rcpt_to
dispatch-MayStore env ehlo args s =
    inl (ground (arith, send_multiline_response-Spoke (ehlo_lines env s.tls_active) s.link))
dispatch-MayStore env message args s = ground arith
dispatch-MayStore env starttls args s = inl (ground arith)
dispatch-MayStore env auth args s = inl (ground arith)
dispatch-MayStore env _ args s = inl (ground arith)

-- Every command keeps this: before the greeting nobody is authenticated, and between commands the
-- session is never in the DATA state, whatever line was sent.
pub handle_command-StateInv :
    (env : Env) (line : Bytes) (s : Session) → StateInv s → StateInv (handle_command env line s)
unfolding handle_command
handle_command-StateInv env line s h = dispatch-StateInv env _ _ s h

-- Under TLS, a session where an open transaction implies authentication stays so and stays under
-- TLS, and a command hands a message to the store only for an authenticated client in RCPT_TO.
pub handle_command-IsTrusted :
    (env : Env) (line : Bytes) (s : Session)
    → s.tls_active ≡ true
    → IsTrusted s
    → let s' = handle_command env line s in
      (s'.tls_active ≡ true)
      × IsTrusted s'
      × ((stored_in s'.trace ≡ stored_in s.trace)
          ⊎ ((s.authed ≡ true) × (s.state ≡ SmtpState.rcpt_to)))
unfolding handle_command
handle_command-IsTrusted env line s t h =
    let (cmd, args) = split_command line in
    let v = verb_of (upper cmd) in
    (
      dispatch-tls env v args s t,
      dispatch-IsTrusted env v args s (inl t) h,
      ground (arith, dispatch-MayStore env v args s),
    )

-- Without TLS, where the configuration requires it, no command hands a message to the store.
pub handle_command_plaintext :
    (env : Env) (line : Bytes) (s : Session)
    → env.tls_required ≡ true
    → s.tls_active ≡ false
    → stored_in (handle_command env line s).trace ≡ stored_in s.trace
unfolding handle_command
handle_command_plaintext env line s r t =
    let (cmd, args) = split_command line in
    ground (arith, dispatch-MayStore env (verb_of (upper cmd)) args s)

-- The session after STARTTLS succeeded in MAIL_FROM and one RCPT was accepted.
abbrev pub after_upgrade : Env → Bytes → Session → Session
after_upgrade env to s = dispatch env rcpt to (dispatch env starttls [] s)

record IsUpgraded (to : Bytes) (s s' : Session) : Type 0 where
  dropped : s'.authed ≡ false
  in_rcpt_to : s'.state ≡ SmtpState.rcpt_to
  secure : s'.tls_active ≡ true
  one_recipient : s'.recipients ≡ to ∷ []
  same_input : s'.input ≡ s.input
  no_store : stored_in s'.trace ≡ stored_in s.trace

-- After DATA a further RCPT opens a transaction with an empty sender, with no MAIL in between.
pub rcpt_after_data :
    (env : Env) (s : Session) (to : Bytes)
    → s.state ≡ SmtpState.rcpt_to
    → env.tls_required && not s.tls_active ≡ false
    → let s' = dispatch env rcpt to (dispatch env message [] s) in
      (s'.state ≡ SmtpState.rcpt_to) × (s'.sender ≡ []) × (s'.recipients ≡ to ∷ [])
unfolding dispatch is_mail_from is_rcpt_to
rcpt_after_data env s to m t = ground (arith, handle_data-OnlyTalks env s)

-- The configured DATA timeout has no effect on any check that a session makes between commands.
pub is_timeout_exceeded_data_timeout :
    (env : Env) (s : Session) (seconds : ℕ)
    → StateInv s
    → is_timeout_exceeded (record env { data_timeout = seconds }) s ≡ is_timeout_exceeded env s
unfolding is_timeout_exceeded
is_timeout_exceeded_data_timeout env s seconds h = ground (arith, h.not_in_data)
