-- ===== src/Auth/HashLaws.antt =====
-- The text that `PasswordHash::hash` makes of a key is read back by `PasswordHash::verify`.
use email_server_backend.Base.{
  ℕ, ◌+◌, ◌-◌, ◌≡◌, ◌≢◌, ◌<◌, refl, ap, sym, ◌∙◌, true, false, [], ◌∷◌, ◌++◌, arith, Bytes, text,
  bytes_eq, is_empty, length, length-append, drop, take-append, drop-append, append_assoc,
  find_from, find_from-byte, is_space, substr, All, some,
}
use email_server_backend.Integers.{pos, stoi, stoi_unsigned, skip_spaces, read_digits}
use email_server_backend.Auth.PasswordHash.{
  Crypto, pbkdf2_prefix, iteration_text, is_hashed, hash_text, hash, verify_key, verify_pbkdf2,
  verify,
}
use email_server_backend.Auth.Compare.{diff_iff}

-- What the program relies on: keys have 32 bytes, and BASE64 text has no '$' and is decoded to
-- what was encoded.
abbrev pub IsKey : Bytes → Type 0
IsKey k = (length k ≡ 32) × All (λ c. c < 256) k

module _ (crypto : Crypto) (salt key : Bytes) where
  abbrev encoded_salt : Bytes
  encoded_salt = crypto.base64_encode salt

  abbrev encoded_key : Bytes
  encoded_key = crypto.base64_encode key

  abbrev after_salt : Bytes
  after_salt = b'$' ∷ encoded_key

  hash_text-is_hashed : is_hashed (hash_text crypto salt key) ≡ true
  unfolding is_hashed text bytes_eq
  hash_text-is_hashed = ground arith

  module _ (no_dollar : All (λ c. c ≢ b'$') (crypto.base64_encode salt)) where
    first_dollar : find_from (b'$' ∷ []) (hash_text crypto salt key) 15 ≡ some 21
    unfolding text
    first_dollar =
        find_from-byte b'$' pbkdf2_prefix iteration_text (encoded_salt ++ after_salt) (ground arith)

    second_dollar :
        find_from (b'$' ∷ []) (hash_text crypto salt key) 22 ≡ some (22 + length encoded_salt)
    unfolding text
    second_dollar =
        find_from-byte b'$' (pbkdf2_prefix ++ (iteration_text ++ b'$' ∷ [])) encoded_salt
          encoded_key no_dollar

    iterations_lem : stoi (substr (hash_text crypto salt key) 15 6) ≡ some (pos 100000)
    unfolding text substr stoi stoi_unsigned skip_spaces read_digits is_space
    iterations_lem = refl

    salt_lem : substr (hash_text crypto salt key) 22 (length encoded_salt) ≡ encoded_salt
    unfolding text substr
    salt_lem = take-append encoded_salt after_salt

    key_lem :
        (n : ℕ) → n ≡ 23 + length encoded_salt → drop n (hash_text crypto salt key) ≡ encoded_key
    unfolding text
    key_lem n e =
        let pre = encoded_salt ++ b'$' ∷ [] in
        let same : n ≡ length (pbkdf2_prefix ++ (iteration_text ++ b'$' ∷ pre)) =
          omega (arith, e, length-append encoded_salt (b'$' ∷ [])) in
        rw (same, ← append_assoc encoded_salt (b'$' ∷ []) encoded_key)
          (drop-append (pbkdf2_prefix ++ (iteration_text ++ b'$' ∷ pre)) encoded_key)

    verify_pbkdf2-hash_text :
        (q : Bytes)
        → crypto.base64_decode encoded_salt ≡ salt
        → crypto.base64_decode encoded_key ≡ key
        → verify_pbkdf2 crypto q (hash_text crypto salt key)
          ≡ some (verify_key crypto q salt key (pos 100000))
    unfolding verify_pbkdf2
    verify_pbkdf2-hash_text q s k =
        let n = length encoded_salt in
        let count : 22 + n - 21 - 1 ≡ n = omega arith in
        rw (first_dollar, verify_pbkdf2)
          (rw (iterations_lem, verify_pbkdf2)
            (rw (second_dollar, verify_pbkdf2)
              (rw (count, salt_lem, s, key_lem (22 + n + 1) (omega arith), k) refl)))

is_empty-key : (k : Bytes) → IsKey k → is_empty k ≡ false
unfolding is_empty
is_empty-key [] h = absurd (omega (arith, h.0))
is_empty-key (c ∷ k) h = refl

verify_key-key :
    (crypto : Crypto) (q salt k k' : Bytes)
    → is_empty salt ≡ false
    → IsKey k
    → IsKey k'
    → crypto.pbkdf2 q salt (pos 100000) ≡ some k'
    → verify_key crypto q salt k (pos 100000) ≡ bytes_eq k' k
unfolding verify_key
verify_key-key crypto q salt k k' hs ik ik' eq =
    rw (hs, is_empty-key k ik)
      (rw (eq, verify_key) (rw ik.0 (diff_iff k' k ik'.1 ik.1 (ik'.0 ∙ sym ik.0))))

verify-hash_text :
    (crypto : Crypto) (salt k q : Bytes)
    → is_empty q ≡ false
    → verify crypto q (hash_text crypto salt k) ≡ verify_pbkdf2 crypto q (hash_text crypto salt k)
unfolding verify is_empty bytes_eq text
verify-hash_text crypto salt k q hq = rw hq refl

-- The hash of a password that is not empty is accepted as a hash, and it verifies exactly the
-- passwords, other than the empty one, that have the key of the hashed one, where the salt is not
-- empty, PBKDF2 gives keys of 32 bytes, and the BASE64 text of the salt has no '$' and is decoded,
-- as that of the key, to what was encoded.
pub hash-verify :
    (crypto : Crypto) (salt p q k k' : Bytes)
    → is_empty p ≡ false
    → is_empty q ≡ false
    → is_empty salt ≡ false
    → IsKey k
    → IsKey k'
    → crypto.pbkdf2 p salt (pos 100000) ≡ some k
    → crypto.pbkdf2 q salt (pos 100000) ≡ some k'
    → All (λ c. c ≢ b'$') (crypto.base64_encode salt)
    → crypto.base64_decode (crypto.base64_encode salt) ≡ salt
    → crypto.base64_decode (crypto.base64_encode k) ≡ k
    → (h : Bytes) × ((hash crypto (some salt) p ≡ some h)
        × ((is_hashed h ≡ true) × (verify crypto q h ≡ some (bytes_eq k' k))))
unfolding hash
hash-verify crypto salt p q k k' hp hq hs ik ik' ep eq enc ds dk = (
  hash_text crypto salt k,
  (
    rw (hp, ep) refl,
    (
      hash_text-is_hashed crypto salt k,
      verify-hash_text crypto salt k q hq
          ∙ (verify_pbkdf2-hash_text crypto salt k enc q ds dk
              ∙ ap some (verify_key-key crypto q salt k k' hs ik ik' eq)),
    ),
  ),
)
