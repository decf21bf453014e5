-- ===== src/Auth/AuthManager.antt =====
-- `AuthManager` of core/auth_manager.cpp. The library yaml-cpp gives the entries of the section
-- 'users', each with its password, if it has one, and writes them. `base64Decode` of
-- core/base64.cpp, which only calls OpenSSL, is a parameter.
use email_server_backend.Base.{
  ℕ, suc, ◌+◌, ◌-◌, Bool, true, false, not, List, [], ◌∷◌, Bytes, text, bytes_eq, take, drop,
  find_from, find, substr, ◌==◌, if◌then◌else◌, Option, none, some, Dict, lookup, insert,
}
use email_server_backend.Auth.PasswordHash.{Crypto, is_hashed, hash, verify}

abbrev pub Entry : Type 0
Entry = Bytes × Option Bytes

-- `YAML::LoadFile`: it throws, there is no section 'users', or these are its entries.
pub data File : Type 0 where
  unreadable no_users : File
  users_of : List Entry → File

-- Which calls of the system succeed.
pub record Disk : Type 0 where
  pub create_ok : Bool
  pub write_ok : Bool
  pub rename_ok : Bool

-- The first loop of `loadFromFile`: the table, the document, and how many passwords were migrated,
-- or that hashing threw.
pub record Scan : Type 0 where
  pub users : Dict Bytes
  pub entries : List Entry
  pub migrated : ℕ
  pub raised : Bool

pub record Loaded : Type 0 where
  pub ok : Bool
  pub users : Dict Bytes
  pub file : File

-- Whether the login succeeds, or `none` for an exception, and the name of the user where the
-- code sets it.
pub record Answer : Type 0 where
  pub result : Option Bool
  pub username : Option Bytes

abbrev refused : Answer
refused = record { result = some false; username = none }

module _ (crypto : Crypto) where
  -- `salts n` is the salt of the n-th hash, if the system gives one.
  unfoldable pub scan : (ℕ → Option Bytes) → ℕ → List Entry → Dict Bytes → Scan
  scan salts n [] users = record { users = users; entries = []; migrated = 0; raised = false }
  scan salts n ((name, none) ∷ es) users =
      let r = scan salts n es users in record r { entries = (name, none) ∷ r.entries }
  scan salts n ((name, some p) ∷ es) users =
      let kept = scan salts n es (insert name p users) in
      let later = scan salts (suc n) es users in
      if is_hashed p
      then record kept { entries = (name, some p) ∷ kept.entries }
      else elim (hash crypto (salts n) p) [
        | none ↦ record {
          users = users;
          entries = (name, some p) ∷ es;
          migrated = 0;
          raised = true;
        }
        | some h ↦ record later {
          entries = (name, some h) ∷ later.entries;
          migrated = suc later.migrated;
        }
      ]

  -- The loop after a migration, which ends at a password that is not hashed.
  unfoldable pub store_migrated : List Entry → Dict Bytes → Bool × Dict Bytes
  store_migrated [] users = (true, users)
  store_migrated ((name, none) ∷ es) users = store_migrated es users
  store_migrated ((name, some p) ∷ es) users =
      let rest = store_migrated es (insert name p users) in
      if is_hashed p then rest else (false, users)

  -- The loop where there was nothing to migrate.
  unfoldable pub store_all : List Entry → Dict Bytes → Dict Bytes
  store_all [] users = users
  store_all ((name, none) ∷ es) users = store_all es users
  store_all ((name, some p) ∷ es) users = store_all es (insert name p users)

  unfoldable pub load_entries : Disk → (ℕ → Option Bytes) → List Entry → Dict Bytes → Loaded
  load_entries disk salts entries users =
      let s = scan salts 0 entries users in
      let done = store_migrated s.entries s.users in
      if s.raised
      then record { ok = false; users = s.users; file = File.users_of entries }
      else if s.migrated == 0
      then record { ok = true; users = store_all s.entries s.users; file = File.users_of entries }
      else if not disk.create_ok
      then record { ok = false; users = s.users; file = File.users_of entries }
      else if not disk.write_ok
      then record { ok = false; users = s.users; file = File.users_of entries }
      else if not disk.rename_ok
      then record { ok = false; users = s.users; file = File.users_of entries }
      else record { ok = done.0; users = done.1; file = File.users_of s.entries }

  unfoldable pub load_from_file : Disk → (ℕ → Option Bytes) → File → Dict Bytes → Loaded
  load_from_file disk salts File.unreadable users = record {
    ok = false;
    users = users;
    file = File.unreadable;
  }
  load_from_file disk salts File.no_users users = record {
    ok = false;
    users = users;
    file = File.no_users;
  }
  load_from_file disk salts (File.users_of entries) users = load_entries disk salts entries users

  -- `none` is an exception of `PasswordHash::verify`.
  unfoldable pub validate : Bytes → Bytes → Dict Bytes → Option Bool
  validate user pass users = elim (lookup user users) [
    | none ↦ some false
    | some h ↦ if is_hashed h then verify crypto pass h else some false
  ]

  unfoldable pub authenticate_plain : Bytes → Dict Bytes → Answer
  authenticate_plain decoded users = elim (find (0 ∷ []) decoded) [
    | none ↦ refused
    | some pos1 ↦ elim (find_from (0 ∷ []) decoded (pos1 + 1)) [
      | none ↦ refused
      | some pos2 ↦
          let user = substr decoded (pos1 + 1) (pos2 - pos1 - 1) in
          record { result = validate user (drop (pos2 + 1) decoded) users; username = some user }
    ]
  ]

  unfoldable pub authenticate_smtp : (Bytes → Bytes) → Bytes → Dict Bytes → Answer
  authenticate_smtp base64_decode args users =
      if bytes_eq (take 6 args) (text "PLAIN ")
      then authenticate_plain (base64_decode (drop 6 args)) users
      else refused
