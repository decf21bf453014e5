-- ===== src/Auth/UserTable.antt =====
-- The table of users of core/auth_manager.cpp holds hashes only.
use email_server_backend.Base.{
  ℕ, suc, ◌≡◌, true, false, List, [], ◌∷◌, arith, Bytes, All, Option, none, some, Option-cases,
  Dict, lookup, insert, lookup-insert, inl, inr, Bool-cases,
}
use email_server_backend.Auth.PasswordHash.{Crypto, is_hashed, hash}
use email_server_backend.Auth.AuthManager.{
  Entry, File, Disk, scan, store_migrated, store_all, load_entries, load_from_file,
}

abbrev pub IsHashedTable : Dict Bytes → Type 0
IsHashedTable users = (name h : Bytes) → lookup name users ≡ some h → is_hashed h ≡ true

-- An entry without a password, or with a hash.
abbrev pub IsHashedEntry : Entry → Type 0
IsHashedEntry (name, none) = Unit
IsHashedEntry (name, some p) = is_hashed p ≡ true

insert-IsHashedTable :
    (name p : Bytes) (users : Dict Bytes)
    → is_hashed p ≡ true
    → IsHashedTable users
    → IsHashedTable (insert name p users)
insert-IsHashedTable name p users e t name' h found =
    ground (arith, lookup-insert name name' p users, t name' h)

module _ (crypto : Crypto) where
  scan-IsHashedTable :
      (salts : ℕ → Option Bytes) (n : ℕ) (es : List Entry) (users : Dict Bytes)
      → IsHashedTable users
      → IsHashedTable (scan crypto salts n es users).users
  unfolding scan
  scan-IsHashedTable salts n [] users t = t
  scan-IsHashedTable salts n ((name, none) ∷ es) users t = scan-IsHashedTable salts n es users t
  scan-IsHashedTable salts n ((name, some p) ∷ es) users t = elim (Bool-cases (is_hashed p)) [
    | inl e ↦
        rw (e, scan)
          (scan-IsHashedTable salts n es (insert name p users)
            (insert-IsHashedTable name p users e t))
    | inr e ↦ elim (Option-cases (hash crypto (salts n) p)) [
      | inl f ↦ rw (e, f, scan) t
      | inr (h, f) ↦ rw (e, f, scan) (scan-IsHashedTable salts (suc n) es users t)
    ]
  ]

  -- Where nothing was migrated, all was hashed.
  scan-IsHashedEntry :
      (salts : ℕ → Option Bytes) (n : ℕ) (es : List Entry) (users : Dict Bytes)
      → (scan crypto salts n es users).raised ≡ false
      → (scan crypto salts n es users).migrated ≡ 0
      → All IsHashedEntry (scan crypto salts n es users).entries
  unfolding scan
  scan-IsHashedEntry salts n [] users r m = tt
  scan-IsHashedEntry salts n ((name, none) ∷ es) users r m =
      (tt, scan-IsHashedEntry salts n es users r m)
  scan-IsHashedEntry salts n ((name, some p) ∷ es) users r m = ground (
    arith,
    Option-cases (hash crypto (salts n) p),
    scan-IsHashedEntry salts n es (insert name p users),
  )

  store_all-IsHashedTable :
      (es : List Entry) (users : Dict Bytes)
      → All IsHashedEntry es
      → IsHashedTable users
      → IsHashedTable (store_all crypto es users)
  unfolding store_all
  store_all-IsHashedTable [] users h t = t
  store_all-IsHashedTable ((name, none) ∷ es) users h t = store_all-IsHashedTable es users h.1 t
  store_all-IsHashedTable ((name, some p) ∷ es) users h t =
      store_all-IsHashedTable es (insert name p users) h.1 (insert-IsHashedTable name p users h.0 t)

  store_migrated-IsHashedTable :
      (es : List Entry) (users : Dict Bytes)
      → IsHashedTable users
      → IsHashedTable (store_migrated crypto es users).1
  unfolding store_migrated
  store_migrated-IsHashedTable [] users t = t
  store_migrated-IsHashedTable ((name, none) ∷ es) users t = store_migrated-IsHashedTable es users t
  store_migrated-IsHashedTable ((name, some p) ∷ es) users t = elim (Bool-cases (is_hashed p)) [
    | inl e ↦
        rw (e, store_migrated)
          (store_migrated-IsHashedTable es (insert name p users)
            (insert-IsHashedTable name p users e t))
    | inr e ↦ rw (e, store_migrated) t
  ]

  load_entries-IsHashedTable :
      (disk : Disk) (salts : ℕ → Option Bytes) (es : List Entry) (users : Dict Bytes)
      → IsHashedTable users
      → IsHashedTable (load_entries crypto disk salts es users).users
  unfolding load_entries
  load_entries-IsHashedTable disk salts es users t name h found =
      let s = scan crypto salts 0 es users in
      let kept = scan-IsHashedTable salts 0 es users t in
      let store_scanned : (name' h' : Bytes)
          → s.raised ≡ false
          → s.migrated ≡ 0
          → lookup name' (store_all crypto s.entries s.users) ≡ some h'
          → is_hashed h' ≡ true =
        λ name' h' r m.
          store_all-IsHashedTable s.entries s.users (scan-IsHashedEntry salts 0 es users r m) kept
            name' h' in
      ground (
        arith,
        found,
        kept name h,
        store_migrated-IsHashedTable s.entries s.users kept name h,
        store_scanned name h,
      )

-- The table of users holds no plaintext: if all passwords in the table are hashes, then they are
-- after `loadFromFile`, whatever is in the file and wherever reading, hashing or writing fails.
pub load_from_file-IsHashedTable :
    (crypto : Crypto) (disk : Disk) (salts : ℕ → Option Bytes) (file : File) (users : Dict Bytes)
    → IsHashedTable users
    → IsHashedTable (load_from_file crypto disk salts file users).users
unfolding load_from_file
load_from_file-IsHashedTable crypto disk salts File.unreadable users t = t
load_from_file-IsHashedTable crypto disk salts File.no_users users t = t
load_from_file-IsHashedTable crypto disk salts (File.users_of entries) users t =
    load_entries-IsHashedTable crypto disk salts entries users t
