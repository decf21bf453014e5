-- ===== src/Auth/EmptyPassword.antt =====
-- What `loadFromFile` of core/auth_manager.cpp does with an empty password.
use email_server_backend.Base.{
  ℕ, suc, ◌≡◌, refl, Bool, true, false, not, ◌||◌, List, [], ◌∷◌, arith, Bytes, is_empty, ◌==◌,
  none, some, Option, Option-cases, ◌⊎◌, inl, inr, Dict, insert,
}
use email_server_backend.Auth.PasswordHash.{Crypto, is_hashed, hash}
use email_server_backend.Auth.AuthManager.{
  Entry, File, Disk, scan, store_migrated, load_entries, load_from_file,
}

abbrev pub has_empty : List Entry → Bool
has_empty [] = false
has_empty ((name, none) ∷ es) = has_empty es
has_empty ((name, some p) ∷ es) = is_empty p || has_empty es

not_hashed : (p : Bytes) → is_empty p ≡ true → is_hashed p ≡ false
unfolding is_hashed is_empty
not_hashed [] e = refl
not_hashed (c ∷ p) e = ground arith

hash-empty :
    (crypto : Crypto) (salt : Option Bytes) (p : Bytes)
    → is_empty p ≡ true
    → hash crypto salt p ≡ some []
unfolding hash
hash-empty crypto salt p e = rw e refl

module _ (crypto : Crypto) (salts : ℕ → Option Bytes) where
  scan-has_empty :
      (n : ℕ) (es : List Entry) (users : Dict Bytes)
      → has_empty es ≡ true
      → let s = scan crypto salts n es users in
        ((s.raised || not (s.migrated == 0)) ≡ true) × (has_empty s.entries ≡ true)
  unfolding scan is_empty
  scan-has_empty n [] users e = ground arith
  scan-has_empty n ((name, none) ∷ es) users e = scan-has_empty n es users e
  scan-has_empty n ((name, some p) ∷ es) users e = ground (
    arith,
    not_hashed p,
    hash-empty crypto (salts n) p,
    Option-cases (hash crypto (salts n) p),
    scan-has_empty n es (insert name p users),
    scan-has_empty (suc n) es users,
  )

  store_migrated-has_empty :
      (es : List Entry) (users : Dict Bytes)
      → has_empty es ≡ true
      → (store_migrated crypto es users).0 ≡ false
  unfolding store_migrated
  store_migrated-has_empty [] users e = ground arith
  store_migrated-has_empty ((name, none) ∷ es) users e = store_migrated-has_empty es users e
  store_migrated-has_empty ((name, some p) ∷ es) users e =
      ground (arith, not_hashed p, store_migrated-has_empty es (insert name p users))

  file_cases :
      (disk : Disk) (entries : List Entry) (users : Dict Bytes)
      → let file = (load_entries crypto disk salts entries users).file in
        (file ≡ File.users_of entries)
        ⊎ (file ≡ File.users_of (scan crypto salts 0 entries users).entries)
  unfolding load_entries
  file_cases disk entries users = ground arith

-- One empty password keeps the whole file from being loaded, for good: `loadFromFile` returns
-- false, whatever the system's calls do, and the file that it leaves behind has an empty password
-- again.
pub load_from_file-has_empty :
    (crypto : Crypto) (disk : Disk) (salts : ℕ → Option Bytes) (entries : List Entry)
    (users : Dict Bytes)
    → has_empty entries ≡ true
    → let loaded = load_from_file crypto disk salts (File.users_of entries) users in
      (loaded.ok ≡ false)
      × ((es : List Entry) × ((loaded.file ≡ File.users_of es) × (has_empty es ≡ true)))
unfolding load_from_file load_entries
load_from_file-has_empty crypto disk salts entries users e =
    let s = scan crypto salts 0 entries users in
    let h = scan-has_empty crypto salts 0 entries users e in
    let stored = store_migrated-has_empty crypto salts s.entries s.users h.1 in
    (
      ground (arith, h.0, stored),
      elim (file_cases crypto salts disk entries users) [
        | inl f ↦ (entries, (f, e))
        | inr f ↦ (s.entries, (f, h.1))
      ],
    )
