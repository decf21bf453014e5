-- ===== src/Imap/Login.antt =====
-- Who is logged in to an IMAP session of imap/imap_session.cpp.
use email_server_backend.Base.{
  ◌≡◌, refl, Bool, true, false, ◌||◌, arith, Bytes, text, bytes_eq, is_empty, upper, if◌then◌else◌,
  Option, Option-cases, Bool-cases, inl, inr, none, some,
}
use email_server_backend.Smtp.Dispatch.{skip_spaces, take_word}
use email_server_backend.Validation.InputValidator.{is_valid_username}
use email_server_backend.Imap.Session.{
  Env, Session, send, split_imap, handle_capability, handle_starttls, strip_quotes, log_in,
  handle_login, handle_logout, handle_parts, handle_command,
}

-- A session that is logged in is under TLS, and the authentication manager accepted the name of
-- its user, which is valid, with a password.
abbrev pub IsGenuine : Env → Session → Type 0
IsGenuine env s =
    s.authed ≡ true
    → (s.tls_active ≡ true)
      × ((is_valid_username s.username ≡ true)
          × ((pass : Bytes) × (env.validate s.username pass ≡ some true)))

-- The authentication manager throws for some login.
abbrev pub Throws : Env → Type 0
Throws env = (user : Bytes) × ((pass : Bytes) × (env.validate user pass ≡ none))

-- A command ends in such a state, or throws because the authentication manager does.
abbrev pub Surely : Env → (Session → Type 0) → Option Session → Type 0
Surely env P none = Throws env
Surely env P (some t) = P t

pub Surely-if :
    (env : Env) (P : Session → Type 0) (b : Bool) (x y : Option Session)
    → (b ≡ true → Surely env P x)
    → (b ≡ false → Surely env P y)
    → Surely env P (if b then x else y)
Surely-if env P true x y h k = h refl
Surely-if env P false x y h k = k refl

module _ (env : Env) where
  handle_starttls-IsGenuine :
      (tag : Bytes) (s : Session) → IsGenuine env s → IsGenuine env (handle_starttls env tag s)
  unfolding handle_starttls send
  handle_starttls-IsGenuine tag s g = elim (Bool-cases (env.handshake s.handshakes)) [
    | inl e ↦ rw (e, handle_starttls) (λ a. absurd (ground (arith, a)))
    | inr e ↦ rw (e, handle_starttls) g
  ]

  log_in-IsGenuine :
      (tag user pass : Bytes) (s : Session)
      → s.tls_active ≡ true
      → IsGenuine env s
      → Surely env (IsGenuine env) (log_in env tag user pass s)
  unfolding log_in send
  log_in-IsGenuine tag user pass s tls g = elim (Bool-cases (is_valid_username user)) [
    | inr e ↦ rw (e, log_in) g
    | inl e ↦ elim (Option-cases (env.validate user pass)) [
      | inl f ↦ rw (e, f, log_in) (user, (pass, f))
      | inr (true, f) ↦ rw (e, f, log_in) (λ a. (tls, (e, (pass, f))))
      | inr (false, f) ↦ rw (e, f, log_in) g
    ]
  ]

  handle_login-IsGenuine :
      (tag args : Bytes) (s : Session)
      → s.tls_active ≡ true
      → IsGenuine env s
      → Surely env (IsGenuine env) (handle_login env tag args s)
  unfolding handle_login send
  handle_login-IsGenuine tag args s tls g =
      let r = take_word (skip_spaces args) in
      let p = take_word (skip_spaces r.1) in
      Surely-if env (IsGenuine env) s.authed _ _ (λ e. g)
        (λ e.
          Surely-if env (IsGenuine env) (is_empty r.0 || is_empty p.0) _ _ (λ f. g)
            (λ f. log_in-IsGenuine tag (strip_quotes r.0) (strip_quotes p.0) s tls g))

  handle_parts-IsGenuine :
      (tag ucmd args : Bytes) (s : Session)
      → IsGenuine env s
      → Surely env (IsGenuine env) (handle_parts env tag ucmd args s)
  unfolding handle_parts send handle_capability handle_starttls handle_logout
  handle_parts-IsGenuine tag ucmd args s g =
      Surely-if env (IsGenuine env) (bytes_eq ucmd (text "CAPABILITY")) _ _ (λ e. g)
        (λ e.
          Surely-if env (IsGenuine env) (bytes_eq ucmd (text "STARTTLS")) _ _
            (λ f. handle_starttls-IsGenuine tag s g)
            (λ f.
              Surely-if env (IsGenuine env) (bytes_eq ucmd (text "LOGIN")) _ _
                (λ h.
                  Surely-if env (IsGenuine env) s.tls_active _ _
                    (λ t. handle_login-IsGenuine tag args s t g) (λ t. g))
                (λ h.
                  Surely-if env (IsGenuine env) (bytes_eq ucmd (text "LOGOUT")) _ _ (λ l. g)
                    (λ l. g))))

pub handle_command-IsGenuine :
    (env : Env) (line : Bytes) (s : Session)
    → IsGenuine env s
    → Surely env (IsGenuine env) (handle_command env line s)
unfolding handle_command
handle_command-IsGenuine env line s g =
    let p = split_imap line in handle_parts-IsGenuine env p.0 (upper p.1.0) p.1.1 s g
