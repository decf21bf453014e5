-- ===== src/Auth/PasswordHash.antt =====
-- `PasswordHash` of core/password_hash.cpp. The functions of OpenSSL are parameters: PBKDF2, which
-- may fail, the BASE64 filters, and the random salt.
use email_server_backend.Base.{
  ℕ, zero, suc, ◌+◌, ◌-◌, ◌*◌, ◌/◌, ◌%◌, Bool, false, not, ◌&&◌, ◌||◌, [], ◌∷◌, ◌++◌, Bytes, text,
  bytes_eq, is_empty, length, take, drop, find_from, substr, ltb, ◌==◌, if◌then◌else◌, Option, none,
  some,
}
use mathlib.Core.Option
use email_server_backend.Integers.{ℤ, pos, stoi}

-- `pbkdf2 password salt iterations` is a key of 32 bytes.
pub record Crypto : Type 0 where
  pub pbkdf2 : Bytes → Bytes → ℤ → Option Bytes
  pub base64_encode : Bytes → Bytes
  pub base64_decode : Bytes → Bytes

-- The operators ^ and | on integers of `w` bits.
unfoldable pub xor : ℕ → ℕ → ℕ → ℕ
xor zero a b = 0
xor (suc w) a b = (if a % 2 == b % 2 then 0 else 1) + 2 * xor w (a / 2) (b / 2)

unfoldable pub or : ℕ → ℕ → ℕ → ℕ
or zero a b = 0
or (suc w) a b = (if a % 2 + b % 2 == 0 then 0 else 1) + 2 * or w (a / 2) (b / 2)

-- The comparison whose time does not depend on the bytes, of two sequences of one length: the bits
-- in which they differ are collected.
unfoldable pub diff : ℕ → Bytes → Bytes → ℕ
unfolding xor or
diff d (a ∷ as') (b ∷ bs) = diff (or 8 d (xor 8 a b)) as' bs
diff d _ _ = d

abbrev pub pbkdf2_prefix : Bytes
unfolding text
pbkdf2_prefix = text "$pbkdf2-sha256$"

abbrev pub iteration_text : Bytes
unfolding text
iteration_text = text "100000"

-- `str.length() > 20 && str[0] == '$' && …`
unfoldable pub is_hashed : Bytes → Bool
is_hashed s =
    ltb 20 (length s)
    && (bytes_eq (take 1 s) (b'$' ∷ [])
        && (bytes_eq (take 15 s) pbkdf2_prefix || bytes_eq (take 8 s) (text "$pbkdf2$")))

module _ (crypto : Crypto) where
  abbrev pub hash_text : Bytes → Bytes → Bytes
  hash_text salt key =
      pbkdf2_prefix
      ++ (iteration_text ++ b'$' ∷ (crypto.base64_encode salt ++ b'$' ∷ crypto.base64_encode key))

  -- `none` is an exception: no salt, or no key.
  unfoldable pub hash : Option Bytes → Bytes → Option Bytes
  hash salt plaintext = if is_empty plaintext then some [] else elim salt [
    | none ↦ none
    | some s ↦ Option.map (hash_text s) (crypto.pbkdf2 plaintext s (pos 100000))
  ]

  unfoldable pub verify_key : Bytes → Bytes → Bytes → ℤ → Bool
  unfolding diff
  verify_key plaintext salt key iterations =
      if is_empty salt || is_empty key
      then false
      else elim (crypto.pbkdf2 plaintext salt iterations) [
        | none ↦ false
        | some computed ↦ length key == 32 && diff 0 computed key == 0
      ]

  -- `none` is an exception of `std::stoi`.
  unfoldable pub verify_pbkdf2 : Bytes → Bytes → Option Bool
  verify_pbkdf2 plaintext h = elim (find_from (b'$' ∷ []) h 15) [
    | none ↦ some false
    | some pos1 ↦ elim (stoi (substr h 15 (pos1 - 15))) [
      | none ↦ none
      | some iterations ↦ elim (find_from (b'$' ∷ []) h (pos1 + 1)) [
        | none ↦ some false
        | some pos2 ↦ some (
            verify_key plaintext (crypto.base64_decode (substr h (pos1 + 1) (pos2 - pos1 - 1)))
              (crypto.base64_decode (drop (pos2 + 1) h)) iterations)
      ]
    ]
  ]

  unfoldable pub verify : Bytes → Bytes → Option Bool
  unfolding diff
  verify plaintext h =
      if is_empty plaintext || is_empty h
      then some false
      else if bytes_eq (take 15 h) pbkdf2_prefix
      then verify_pbkdf2 plaintext h
      else if not (is_hashed h)
      then some (length plaintext == length h && diff 0 plaintext h == 0)
      else some false
