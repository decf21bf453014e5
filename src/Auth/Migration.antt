-- ===== src/Auth/Migration.antt =====
-- The migration of plaintext passwords by `loadFromFile` of core/auth_manager.cpp.
use email_server_backend.Base.{
  ℕ, suc, ◌≡◌, ◌≢◌, ◌∙◌, refl, true, false, ◌&&◌, List, [], ◌∷◌, ◌++◌, arith, Bytes, bytes_eq_iff,
  bytes_eq-false, bytes_eq_refl, ◌<◌, is_empty, All, ◌==◌, Option, none, some, Dict, lookup, insert,
  lookup-insert, inl, inr, Bool-cases,
}
use email_server_backend.Integers.{pos}
use email_server_backend.Auth.PasswordHash.{Crypto, is_hashed, hash, verify}
use email_server_backend.Auth.HashLaws.{IsKey, hash-verify}
use email_server_backend.Auth.AuthManager.{
  Entry, File, Disk, scan, store_migrated, load_entries, load_from_file, validate,
}
use email_server_backend.Auth.UserTable.{IsHashedEntry}

-- An entry of another user, and one whose password is not empty.
abbrev pub IsOther : Bytes → Entry → Type 0
IsOther name e = e.0 ≢ name

abbrev pub IsUsable : Entry → Type 0
IsUsable (name, none) = Unit
IsUsable (name, some p) = is_empty p ≡ false

-- Keys of 32 bytes for every password and salt, and a BASE64 text without '$' that is decoded to
-- what was encoded.
pub record IsSound (crypto : Crypto) (key : Bytes → Bytes → Bytes) : Type 0 where
  pub derives : (p s : Bytes) → crypto.pbkdf2 p s (pos 100000) ≡ some (key p s)
  pub keys : (p s : Bytes) → IsKey (key p s)
  pub encodes : (s : Bytes) → All (λ c. c ≢ b'$') (crypto.base64_encode s)
  pub decodes : (s : Bytes) → crypto.base64_decode (crypto.base64_encode s) ≡ s

module _ (crypto : Crypto) (key : Bytes → Bytes → Bytes) (laws : IsSound crypto key)
    (salt : ℕ → Bytes) (salted : (n : ℕ) → is_empty (salt n) ≡ false) where
  abbrev salts : ℕ → Option Bytes
  salts n = some (salt n)

  hashes :
      (n : ℕ) (p : Bytes)
      → is_empty p ≡ false
      → (h : Bytes) × ((hash crypto (salts n) p ≡ some h)
          × ((is_hashed h ≡ true) × (verify crypto p h ≡ some true)))
  hashes n p e =
      let s = salt n in
      let k = key p s in
      let r =
        hash-verify crypto s p p k k e e (salted n) (laws.keys p s) (laws.keys p s)
          (laws.derives p s) (laws.derives p s) (laws.encodes s) (laws.decodes s)
          (laws.decodes k) in
      (r.0, (r.1.0, (r.1.1.0, ground (arith, r.1.1.1, bytes_eq_iff k k))))

  scan-succeeds :
      (n : ℕ) (es : List Entry) (users : Dict Bytes)
      → All IsUsable es
      → ((scan crypto salts n es users).raised ≡ false)
        × All IsHashedEntry (scan crypto salts n es users).entries
  unfolding scan
  scan-succeeds n [] users h = (refl, tt)
  scan-succeeds n ((name, none) ∷ es) users (h, hs) =
      let r = scan-succeeds n es users hs in (r.0, (tt, r.1))
  scan-succeeds n ((name, some p) ∷ es) users (h, hs) = elim (Bool-cases (is_hashed p)) [
    | inl e ↦ let r = scan-succeeds n es (insert name p users) hs in rw (e, scan) (r.0, (e, r.1))
    | inr e ↦
        let r = scan-succeeds (suc n) es users hs in
        let g = hashes n p h in rw (e, g.1.0, scan) (r.0, (g.1.1.0, r.1))
  ]

  scan-IsOther :
      (n : ℕ) (es : List Entry) (users : Dict Bytes) (name : Bytes)
      → All IsUsable es
      → All (IsOther name) es
      → All (IsOther name) (scan crypto salts n es users).entries
  unfolding scan
  scan-IsOther n [] users name h o = tt
  scan-IsOther n ((name', none) ∷ es) users name (h, hs) (o, os) =
      (o, scan-IsOther n es users name hs os)
  scan-IsOther n ((name', some p) ∷ es) users name (h, hs) (o, os) =
      elim (Bool-cases (is_hashed p)) [
        | inl e ↦ rw (e, scan) (o, scan-IsOther n es (insert name' p users) name hs os)
        | inr e ↦ rw (e, (hashes n p h).1.0, scan) (o, scan-IsOther (suc n) es users name hs os)
      ]

  store_migrated-ok :
      (es : List Entry) (users : Dict Bytes)
      → All IsHashedEntry es
      → (store_migrated crypto es users).0 ≡ true
  unfolding store_migrated
  store_migrated-ok [] users h = refl
  store_migrated-ok ((name, none) ∷ es) users (h, hs) = store_migrated-ok es users hs
  store_migrated-ok ((name, some p) ∷ es) users (h, hs) =
      rw (h, store_migrated) (store_migrated-ok es (insert name p users) hs)

  lookup-store_migrated :
      (es : List Entry) (users : Dict Bytes) (name : Bytes)
      → All IsHashedEntry es
      → All (IsOther name) es
      → lookup name (store_migrated crypto es users).1 ≡ lookup name users
  unfolding store_migrated
  lookup-store_migrated [] users name h o = refl
  lookup-store_migrated ((name', none) ∷ es) users name (h, hs) (o, os) =
      lookup-store_migrated es users name hs os
  lookup-store_migrated ((name', some p) ∷ es) users name (h, hs) (o, os) =
      rw (h, store_migrated)
        (lookup-store_migrated es (insert name' p users) name hs os
          ∙ (lookup-insert name' name p users ∙ rw (bytes_eq-false name' name o) refl))

  -- These entries give a user a hash that verifies a password.
  abbrev Migrates : Bytes → Bytes → List Entry → Type 0
  Migrates name p es =
      (h : Bytes) × ((is_hashed h ≡ true)
        × ((verify crypto p h ≡ some true)
            × ((users : Dict Bytes) → lookup name (store_migrated crypto es users).1 ≡ some h)))

  Migrates-cons :
      (name p name' h : Bytes) (es : List Entry)
      → is_hashed h ≡ true
      → Migrates name p es
      → Migrates name p ((name', some h) ∷ es)
  unfolding store_migrated
  Migrates-cons name p name' h es e m =
      (m.0, (m.1.0, (m.1.1.0, λ users. rw (e, store_migrated) (m.1.1.1 (insert name' h users)))))

  store_migrated-last :
      (name h : Bytes) (es : List Entry) (users : Dict Bytes)
      → is_hashed h ≡ true
      → All IsHashedEntry es
      → All (IsOther name) es
      → lookup name (store_migrated crypto ((name, some h) ∷ es) users).1 ≡ some h
  unfolding store_migrated
  store_migrated-last name h es users e hs os =
      rw (e, store_migrated)
        (lookup-store_migrated es (insert name h users) name hs os
          ∙ (lookup-insert name name h users ∙ rw (bytes_eq_refl name) refl))

  scan-Migrates :
      (n : ℕ) (before after : List Entry) (name p : Bytes) (users : Dict Bytes)
      → All IsUsable (before ++ (name, some p) ∷ after)
      → is_hashed p ≡ false
      → All (IsOther name) after
      → let s = scan crypto salts n (before ++ (name, some p) ∷ after) users in
        (0 < s.migrated) × Migrates name p s.entries
  unfolding scan store_migrated
  scan-Migrates n [] after name p users (h, hs) e os =
      let g = hashes n p h in
      let rest = (scan-succeeds (suc n) after users hs).1 in
      let others = scan-IsOther (suc n) after users name hs os in
      rw (e, g.1.0, scan)
        (
          omega arith,
          (
            g.0,
            (
              g.1.1.0,
              (
                g.1.1.1,
                λ users'.
                    store_migrated-last name g.0 (scan crypto salts (suc n) after users).entries
                      users' g.1.1.0 rest others,
              ),
            ),
          ),
        )
  scan-Migrates n ((name', none) ∷ before) after name p users (h, hs) e os =
      scan-Migrates n before after name p users hs e os
  scan-Migrates n ((name', some p') ∷ before) after name p users (h, hs) e os =
      elim (Bool-cases (is_hashed p')) [
        | inl e' ↦
            let r = scan-Migrates n before after name p (insert name' p' users) hs e os in
            rw (e', scan)
              (
                r.0,
                Migrates-cons name p name' p'
                    (scan crypto salts n (before ++ (name, some p) ∷ after)
                      (insert name' p' users)).entries
                    e' r.1,
              )
        | inr e' ↦
            let r = scan-Migrates (suc n) before after name p users hs e os in
            let g = hashes n p' h in
            rw (e', g.1.0, scan)
              (
                omega arith,
                Migrates-cons name p name' g.0
                    (scan crypto salts (suc n) (before ++ (name, some p) ∷ after) users).entries
                    g.1.1.0 r.1,
              )
      ]

validate-found :
    (crypto : Crypto) (name p h : Bytes) (users : Dict Bytes)
    → lookup name users ≡ some h
    → is_hashed h ≡ true
    → verify crypto p h ≡ some true
    → validate crypto name p users ≡ some true
unfolding validate
validate-found crypto name p h users found e v = rw (found, validate) (rw e v)

-- A file whose passwords are not empty, with a plaintext one among them, is loaded and migrated:
-- where the system's calls succeed, `loadFromFile` returns true, each password of the file that it
-- leaves behind is a hash, and a user whose last entry has a plaintext password is let in with it
-- afterwards.
pub load_from_file-validate :
    (crypto : Crypto) (key : Bytes → Bytes → Bytes) (disk : Disk) (salt : ℕ → Bytes)
    (before after : List Entry) (name p : Bytes) (users : Dict Bytes)
    → IsSound crypto key
    → ((n : ℕ) → is_empty (salt n) ≡ false)
    → (disk.create_ok && (disk.write_ok && disk.rename_ok)) ≡ true
    → All IsUsable (before ++ (name, some p) ∷ after)
    → is_hashed p ≡ false
    → All (IsOther name) after
    → let file = File.users_of (before ++ (name, some p) ∷ after) in
      let loaded = load_from_file crypto disk (λ n. some (salt n)) file users in
      (loaded.ok ≡ true)
      × (((es : List Entry) × ((loaded.file ≡ File.users_of es) × All IsHashedEntry es))
          × (validate crypto name p loaded.users ≡ some true))
unfolding load_from_file load_entries
load_from_file-validate crypto key disk salt before after name p users laws salted works u e os =
    let entries = before ++ (name, some p) ∷ after in
    let s = scan crypto (λ n. some (salt n)) 0 entries users in
    let ok = scan-succeeds crypto key laws salt salted 0 entries users u in
    let m = scan-Migrates crypto key laws salt salted 0 before after name p users u e os in
    let some_migrated : (s.migrated == 0) ≡ false = ground (arith, m.0) in
    let create : disk.create_ok ≡ true = ground (arith, works) in
    let write : disk.write_ok ≡ true = ground (arith, works) in
    let renamed : disk.rename_ok ≡ true = ground (arith, works) in
    let stored = (store_migrated crypto s.entries s.users).1 in
    rw (ok.0, some_migrated, create, write, renamed)
      (
        store_migrated-ok crypto key laws salt salted s.entries s.users ok.1,
        (
          (s.entries, (refl, ok.1)),
          validate-found crypto name p m.1.0 stored (m.1.1.1.1 s.users) m.1.1.0 m.1.1.1.0,
        ),
      )
