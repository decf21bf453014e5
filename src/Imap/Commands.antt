-- ===== src/Imap/Commands.antt =====
-- How a command line of imap/imap_session.cpp is read.
use email_server_backend.Base.{
  suc, ◌-◌, ◌≡◌, ◌≢◌, ◌∙◌, refl, ap, subst, Bool, true, false, [], ◌∷◌, ◌++◌, append-nil, arith,
  Bytes, text, bytes_eq, is_empty, is_space, upper, All, All-append, length, length-append,
  take-append, drop-append, substr, leb, if◌then◌else◌, Option, some,
}
use email_server_backend.Streams.{IsWord}
use email_server_backend.Smtp.Dispatch.{skip_spaces, take_word, take_line, drop_space}
use email_server_backend.Validation.InputValidator.{is_valid_username}
use email_server_backend.Imap.Session.{
  Env, Session, send, split_imap, strip_quotes, log_in, handle_login, handle_parts, handle_command,
}

skip_spaces-word : (w s : Bytes) → IsWord w → skip_spaces (w ++ s) ≡ w ++ s
unfolding skip_spaces is_empty
skip_spaces-word [] s h = ground (arith, h.0)
skip_spaces-word (c ∷ w) s (n, (h, hs)) = rw h refl

take_word-word :
    (w s : Bytes) → All (λ c. is_space c ≡ false) w → take_word (w ++ b' ' ∷ s) ≡ (w, b' ' ∷ s)
unfolding take_word is_space
take_word-word [] s h = refl
take_word-word (c ∷ w) s (h, hs) = rw (take_word-word w s hs, h) refl

take_word-end : (w : Bytes) → All (λ c. is_space c ≡ false) w → take_word w ≡ (w, [])
unfolding take_word
take_word-end [] h = refl
take_word-end (c ∷ w) (h, hs) = rw (take_word-end w hs, h) refl

take_line-same : (s : Bytes) → All (λ c. c ≢ b'\n') s → take_line s ≡ s
unfolding take_line
take_line-same [] h = refl
take_line-same (c ∷ s) h = ground (arith, take_line-same s h.1)

skip_spaces-next : (w s : Bytes) → IsWord w → skip_spaces (b' ' ∷ (w ++ s)) ≡ w ++ s
unfolding skip_spaces is_space
skip_spaces-next w s h = skip_spaces-word w s h

skip_spaces-last : (w : Bytes) → IsWord w → skip_spaces (b' ' ∷ w) ≡ w
skip_spaces-last w h =
    let e : skip_spaces (b' ' ∷ (w ++ [])) ≡ w ++ [] = skip_spaces-next w [] h in
    subst (λ x. skip_spaces (b' ' ∷ x) ≡ x) (append-nil w) e

-- A tag, a command and arguments, with one space between them, are read back.
split_imap-line :
    (tag cmd args : Bytes)
    → IsWord tag
    → IsWord cmd
    → All (λ c. c ≢ b'\n') args
    → split_imap (tag ++ b' ' ∷ (cmd ++ b' ' ∷ args)) ≡ (tag, (cmd, args))
unfolding split_imap drop_space
split_imap-line tag cmd args t c a =
    rw
      (
        skip_spaces-word tag (b' ' ∷ (cmd ++ b' ' ∷ args)) t,
        take_word-word tag (cmd ++ b' ' ∷ args) t.1,
        skip_spaces-next cmd (b' ' ∷ args) c,
        take_word-word cmd args c.1,
        take_line-same (b' ' ∷ args) (ground (arith, a)),
      )
      refl

abbrev pub quoted : Bytes → Bytes
quoted s = b'"' ∷ (s ++ b'"' ∷ [])

strip_quotes-quoted : (s : Bytes) → strip_quotes (quoted s) ≡ s
unfolding strip_quotes bytes_eq substr
strip_quotes-quoted s =
    let n : length (s ++ b'"' ∷ []) ≡ suc (length s) = omega (arith, length-append s (b'"' ∷ [])) in
    let two : leb 2 (suc (suc (length s))) ≡ true = ground arith in
    let last : suc (suc (length s)) - 1 ≡ suc (length s) = omega arith in
    let inner : suc (suc (length s)) - 2 ≡ length s = omega arith in
    rw (n, two, last, drop-append s (b'"' ∷ []), inner, take-append s (b'"' ∷ [])) refl

quoted-IsWord : (s : Bytes) → All (λ c. is_space c ≡ false) s → IsWord (quoted s)
unfolding is_empty is_space
quoted-IsWord s h =
    (refl, (refl, All-append (λ c. is_space c ≡ false) s (b'"' ∷ []) h (ground arith)))

no_newline : (s : Bytes) → All (λ c. is_space c ≡ false) s → All (λ c. c ≢ b'\n') s
unfolding is_space
no_newline [] h = tt
no_newline (c ∷ s) (h, hs) = (ground (arith, h), no_newline s hs)

module _ (tag cmd user pass : Bytes) where
  abbrev pub login_line : Bytes
  login_line = tag ++ b' ' ∷ (cmd ++ b' ' ∷ (quoted user ++ b' ' ∷ quoted pass))

-- `if` where its condition is known.
if-false : (b : Bool) (x y : Option Session) → b ≡ false → (if b then x else y) ≡ y
if-false b x y e = rw e refl

if-true : (b : Bool) (x y : Option Session) → b ≡ true → (if b then x else y) ≡ x
if-true b x y e = rw e refl

handle_login-words :
    (env : Env) (tag u p : Bytes) (s : Session)
    → s.authed ≡ false
    → IsWord u
    → IsWord p
    → handle_login env tag (u ++ b' ' ∷ p) s ≡ log_in env tag (strip_quotes u) (strip_quotes p) s
unfolding handle_login
handle_login-words env tag u p s a hu hp =
    let next : skip_spaces (b' ' ∷ p) ≡ p = skip_spaces-last p hp in
    rw
      (
        skip_spaces-word u (b' ' ∷ p) hu,
        take_word-word u p hu.1,
        next,
        take_word-end p hp.1,
        hu.0,
        hp.0,
      )
      (if-false s.authed _ _ a)

handle_parts-login :
    (env : Env) (tag ucmd args : Bytes) (s : Session)
    → ucmd ≡ text "LOGIN"
    → s.tls_active ≡ true
    → handle_parts env tag ucmd args s ≡ handle_login env tag args s
unfolding handle_parts bytes_eq text
handle_parts-login env tag ucmd args s up tls = rw up (if-true s.tls_active _ _ tls)

log_in-valid :
    (env : Env) (tag user pass : Bytes) (valid : Bool) (s : Session)
    → is_valid_username user ≡ true
    → env.validate user pass ≡ some valid
    → log_in env tag user pass s
      ≡ some (
          if valid
          then send
              (tag ++ text " OK LOGIN completed")
              (record s { authed = true; username = user })
          else send (tag ++ text " NO LOGIN failed") s)
unfolding log_in
log_in-valid env tag user pass true s v e = rw (v, e, log_in) refl
log_in-valid env tag user pass false s v e = rw (v, e, log_in) refl

pair_eq :
    (u p : Bytes) → Path (Bytes × Bytes) (strip_quotes (quoted u), strip_quotes (quoted p)) (u, p)
pair_eq u p = rw (strip_quotes-quoted u, strip_quotes-quoted p) refl

-- A login with a name and a password in quotes, without spaces, under TLS: where nobody is logged
-- in and the name is valid, the session asks the authentication manager for exactly this name and
-- this password, answers OK and logs the user in if they are accepted, and answers NO and changes
-- nothing else if they are not. The command may be in upper or lower case.
pub handle_command-login :
    (env : Env) (tag cmd user pass : Bytes) (valid : Bool) (s : Session)
    → IsWord tag
    → IsWord cmd
    → upper cmd ≡ text "LOGIN"
    → s.tls_active ≡ true
    → s.authed ≡ false
    → is_valid_username user ≡ true
    → All (λ c. is_space c ≡ false) user
    → All (λ c. is_space c ≡ false) pass
    → env.validate user pass ≡ some valid
    → handle_command env (login_line tag cmd user pass) s
      ≡ some (
          if valid
          then send
              (tag ++ text " OK LOGIN completed")
              (record s { authed = true; username = user })
          else send (tag ++ text " NO LOGIN failed") s)
unfolding handle_command
handle_command-login env tag cmd user pass valid s t c up tls a v u p e =
    let args = quoted user ++ b' ' ∷ quoted pass in
    let qu = quoted-IsWord user u in
    let qp = quoted-IsWord pass p in
    let args_line : All (λ x. x ≢ b'\n') args =
      All-append (λ x. x ≢ b'\n') (quoted user) (b' ' ∷ quoted pass) (no_newline (quoted user) qu.1)
        (ground (arith, no_newline (quoted pass) qp.1)) in
    ap (λ r. handle_parts env r.0 (upper r.1.0) r.1.1 s)
      (split_imap-line tag cmd args t c args_line)
    ∙ (handle_parts-login env tag (upper cmd) args s up tls
        ∙ (handle_login-words env tag (quoted user) (quoted pass) s a qu qp
            ∙ (ap (λ x. log_in env tag x.0 x.1 s) (pair_eq user pass)
                ∙ log_in-valid env tag user pass valid s v e)))
