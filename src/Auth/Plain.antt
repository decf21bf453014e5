-- ===== src/Auth/Plain.antt =====
-- The parsing of an answer of AUTH PLAIN in core/auth_manager.cpp.
use email_server_backend.Base.{
  ◌+◌, ◌-◌, ◌≡◌, ◌≢◌, refl, sym, [], ◌∷◌, ◌++◌, arith, Bytes, text, bytes_eq, length, length-append,
  drop, take-append, drop-append, append_assoc, find_from, find-byte, find_from-byte, substr, All,
  some, Dict,
}
use email_server_backend.Auth.PasswordHash.{Crypto}
use email_server_backend.Auth.AuthManager.{validate, authenticate_plain, authenticate_smtp}

module _ (authzid user pass : Bytes) where
  abbrev plain : Bytes
  plain = authzid ++ 0 ∷ (user ++ 0 ∷ pass)

  abbrev head : Bytes
  head = authzid ++ 0 ∷ []

  split_head : plain ≡ head ++ (user ++ 0 ∷ pass)
  split_head = sym (append_assoc authzid (0 ∷ []) (user ++ 0 ∷ pass))

  length-head : length authzid + 1 ≡ length head
  length-head = omega (arith, length-append authzid (0 ∷ []))

  second_zero :
      All (λ c. c ≢ 0) user
      → find_from (0 ∷ []) plain (length authzid + 1) ≡ some (length authzid + 1 + length user)
  second_zero h = rw (split_head, length-head) (find_from-byte 0 head user pass h)

  user_lem :
      substr plain (length authzid + 1) (length authzid + 1 + length user - length authzid - 1)
      ≡ user
  unfolding substr
  user_lem =
      let n : length authzid + 1 + length user - length authzid - 1 ≡ length user = omega arith in
      rw (n, split_head, length-head, drop-append head (user ++ 0 ∷ pass))
        (take-append user (0 ∷ pass))

  pass_lem : drop (length authzid + 1 + length user + 1) plain ≡ pass
  pass_lem =
      let all = head ++ (user ++ 0 ∷ []) in
      let split : plain ≡ all ++ pass =
        rw (append_assoc head (user ++ 0 ∷ []) pass, append_assoc user (0 ∷ []) pass) split_head in
      let n : length authzid + 1 + length user + 1 ≡ length all = omega (
        arith,
        length-append authzid (0 ∷ []),
        length-append head (user ++ 0 ∷ []),
        length-append user (0 ∷ []),
      ) in
      rw (n, split) (drop-append all pass)

  authenticate_plain_lem :
      (crypto : Crypto) (users : Dict Bytes)
      → All (λ c. c ≢ 0) authzid
      → All (λ c. c ≢ 0) user
      → authenticate_plain crypto plain users
        ≡ record { result = validate crypto user pass users; username = some user }
  unfolding authenticate_plain
  authenticate_plain_lem crypto users a u =
      rw (find-byte 0 authzid (user ++ 0 ∷ pass) a, authenticate_plain)
        (rw (second_zero u, authenticate_plain) (rw (user_lem, pass_lem) refl))

-- The answer "PLAIN " with the BASE64 text of an identity, a name and a password, separated by
-- zero bytes, is one login: `authenticateSmtp` sets the name and has the result of `validate` for
-- it and the password, whatever the identity is, where the decoder reads the text and neither
-- the identity nor the name has a zero byte.
pub authenticate_smtp-plain :
    (crypto : Crypto) (base64_decode : Bytes → Bytes) (b64 authzid user pass : Bytes)
    (users : Dict Bytes)
    → base64_decode b64 ≡ authzid ++ 0 ∷ (user ++ 0 ∷ pass)
    → All (λ c. c ≢ 0) authzid
    → All (λ c. c ≢ 0) user
    → authenticate_smtp crypto base64_decode (text "PLAIN " ++ b64) users
      ≡ record { result = validate crypto user pass users; username = some user }
unfolding authenticate_smtp text bytes_eq
authenticate_smtp-plain crypto base64_decode b64 authzid user pass users e a u =
    rw e (authenticate_plain_lem authzid user pass crypto users a u)
