-- ===== src/Auth/Tests.antt =====
-- Runs of the authentication manager of core/auth_manager.cpp with a toy key derivation.
use email_server_backend.Base.{
  ℕ, zero, suc, ◌+◌, ◌-◌, ◌%◌, ◌≡◌, ◌≢◌, refl, true, false, List, [], ◌∷◌, ◌++◌, map, arith, Bytes,
  text, bytes_eq, is_empty, length, All, none, some,
}
use email_server_backend.Auth.PasswordHash.{Crypto, is_hashed, hash, verify}
use email_server_backend.Auth.HashLaws.{IsKey, hash-verify}
use email_server_backend.Auth.AuthManager.{Entry, File, Disk, load_from_file, validate}
use email_server_backend.Auth.UserTable.{IsHashedEntry}
use email_server_backend.Auth.Migration.{IsSound, load_from_file-validate}
use email_server_backend.Auth.EmptyPassword.{has_empty, load_from_file-has_empty}

abbrev zeros : ℕ → Bytes
zeros zero = []
zeros (suc n) = 0 ∷ zeros n

-- The key of a password is its length, and the encoding moves each byte by 100.
abbrev toy_key : Bytes → Bytes → Bytes
toy_key p s = length p % 256 ∷ zeros 31

abbrev toy : Crypto
toy = record {
  pbkdf2 = λ p s n. some (toy_key p s);
  base64_encode = map (λ c. c + 100);
  base64_decode = map (λ c. c - 100);
}

toy-encodes : (s : Bytes) → All (λ c. c ≢ b'$') (toy.base64_encode s)
toy-encodes [] = tt
toy-encodes (c ∷ s) = (ground arith, toy-encodes s)

toy-decodes : (s : Bytes) → toy.base64_decode (toy.base64_encode s) ≡ s
toy-decodes [] = refl
toy-decodes (c ∷ s) = ground (arith, toy-decodes s)

toy-keys : (p s : Bytes) → IsKey (toy_key p s)
toy-keys p s = ground arith

toy-IsSound : IsSound toy toy_key
toy-IsSound = record {
  derives = λ p s. refl;
  keys = toy-keys;
  encodes = toy-encodes;
  decodes = toy-decodes;
}

hash-verify_example :
    (h : Bytes) × ((hash toy (some (text "salt")) (text "secret") ≡ some h)
      × ((is_hashed h ≡ true)
          × (verify toy (text "guess") h
              ≡ some (
                  bytes_eq
                    (toy_key (text "guess") (text "salt"))
                    (toy_key (text "secret") (text "salt"))))))
unfolding text is_empty
hash-verify_example =
    hash-verify toy (text "salt") (text "secret") (text "guess")
      (toy_key (text "secret") (text "salt")) (toy_key (text "guess") (text "salt")) refl refl refl
      (toy-keys (text "secret") (text "salt")) (toy-keys (text "guess") (text "salt")) refl refl
      (toy-encodes (text "salt")) (toy-decodes (text "salt"))
      (toy-decodes (toy_key (text "secret") (text "salt")))

abbrev working : Disk
working = record { create_ok = true; write_ok = true; rename_ok = true }

abbrev some_salt : ℕ → Bytes
some_salt n = n ∷ []

abbrev before : List Entry
unfolding text
before = (text "ann", some (text "secret")) ∷ (text "bob", none) ∷ []

abbrev after : List Entry
unfolding text
after = (text "eve", some (text "pw")) ∷ []

abbrev users_file : File
unfolding text
users_file = File.users_of (before ++ (text "ann", some (text "newer")) ∷ after)

load_from_file-validate_example :
    let loaded = load_from_file toy working (λ n. some (some_salt n)) users_file [] in
    (loaded.ok ≡ true)
    × (((es : List Entry) × ((loaded.file ≡ File.users_of es) × All IsHashedEntry es))
        × (validate toy (text "ann") (text "newer") loaded.users ≡ some true))
unfolding text is_empty is_hashed
load_from_file-validate_example =
    load_from_file-validate toy toy_key working some_salt before after (text "ann") (text "newer")
      [] toy-IsSound (λ n. refl) refl (ground arith) refl (ground arith)

load_from_file-has_empty_example :
    let loaded =
      load_from_file toy working (λ n. none) (File.users_of ((text "ann", some []) ∷ after)) [] in
    (loaded.ok ≡ false)
    × ((es : List Entry) × ((loaded.file ≡ File.users_of es) × (has_empty es ≡ true)))
unfolding is_empty
load_from_file-has_empty_example =
    load_from_file-has_empty toy working (λ n. none) ((text "ann", some []) ∷ after) [] refl
