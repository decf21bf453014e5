-- ===== src/Storage/Writes.antt =====
-- Crash safety of `atomicWriteFile` and of the recovery of temporary files in
-- storage/mail_store.cpp.
use email_server_backend.Base.{
  ◌≡◌, Bool, true, false, not, ◌&&◌, [], ◌∷◌, arith, Bytes, bytes_eq, bytes_eq_iff, All,
  if◌then◌else◌, Option, none, some, is_empty, Option-cases, inl, inr, lookup, insert, erase,
  lookup-insert, lookup-erase,
}
use email_server_backend.Smtp.Link.{StoredMessage}
use email_server_backend.Storage.Files.{FileSystem, System, exists, rename}
use email_server_backend.Storage.MailStore.{
  is_temp_file, recover_temp_files, temp_path, write_atomically, make_message_path,
  make_quarantine_path, message_text, given_id, store, delete_message, move_to_quarantine,
}

module _ (path : Bytes) where
  lookup_temp :
      (q content : Bytes) (files : FileSystem)
      → bytes_eq (temp_path path) q ≡ false
      → lookup q (insert (temp_path path) content files) ≡ lookup q files
  lookup_temp q content files n = ground (arith, lookup-insert (temp_path path) q content files)

  lookup_temp_erased :
      (q content : Bytes) (files : FileSystem)
      → bytes_eq (temp_path path) q ≡ false
      → lookup q (erase (temp_path path) (insert (temp_path path) content files)) ≡ lookup q files
  lookup_temp_erased q content files n = ground (
    arith,
    lookup-erase (temp_path path) q (insert (temp_path path) content files),
    lookup_temp q content files n,
  )

  lookup_replaced :
      (q content : Bytes) (files : FileSystem)
      → bytes_eq (temp_path path) q ≡ false
      → lookup q
          (insert path content (erase (temp_path path) (insert (temp_path path) content files)))
        ≡ (if bytes_eq path q then some content else lookup q files)
  lookup_replaced q content files n = ground (
    arith,
    lookup-insert path q content (erase (temp_path path) (insert (temp_path path) content files)),
    lookup_temp_erased q content files n,
  )

-- Every system call that a write makes succeeds.
abbrev pub write_succeeds : System → Bool
write_succeeds sys = sys.create_ok && (sys.write_ok && (sys.flush_ok && sys.replace_ok))

exists-insert :
    (path content : Bytes) (files : FileSystem) → exists path (insert path content files) ≡ true
unfolding exists
exists-insert path content files =
    ground (arith, lookup-insert path path content files, bytes_eq_iff path path)

pub write_atomically-ok :
    (sys : System) (path content : Bytes) (files : FileSystem)
    → (write_atomically sys path content files).ok ≡ write_succeeds sys
unfolding write_atomically
write_atomically-ok sys path content files = ground (
  arith,
  exists-insert path content (erase (temp_path path) (insert (temp_path path) content files)),
)

pub write_atomically_lem :
    (sys : System) (path content : Bytes) (files : FileSystem) (q : Bytes)
    → bytes_eq (temp_path path) q ≡ false
    → let w = write_atomically sys path content files in
      All (λ x. lookup q x ≡ lookup q files) w.passed
      × (lookup q w.files
          ≡ (if write_succeeds sys && bytes_eq path q then some content else lookup q files))
unfolding write_atomically
write_atomically_lem sys path content files q n = ground (
  arith,
  lookup_temp path q [] files n,
  lookup_temp path q content files n,
  lookup_temp_erased path q [] files n,
  lookup_temp_erased path q content files n,
  lookup_replaced path q content files n,
)

pub recover_temp_files_lem :
    (sys : System) (root : Bytes) (files : FileSystem) (q : Bytes)
    → lookup q (recover_temp_files sys root files)
      ≡ (if is_temp_file root q && sys.remove_ok q then none else lookup q files)
unfolding recover_temp_files lookup
recover_temp_files_lem sys root [] q = ground arith
recover_temp_files_lem sys root ((p, content) ∷ files) q =
    ground (arith, recover_temp_files_lem sys root files q, bytes_eq_iff p q, bytes_eq_iff q q)

abbrev pub stores : System → StoredMessage → Bool
stores sys msg = not (is_empty msg.mailbox_user) && (sys.directory_ok && write_succeeds sys)

pub store-id :
    (sys : System) (root generated : Bytes) (msg : StoredMessage) (files : FileSystem)
    → (store sys root generated msg files).id
      ≡ (if stores sys msg then given_id msg generated else [])
unfolding store
store-id sys root generated msg files = ground (
  arith,
  write_atomically-ok sys (make_message_path root msg.mailbox_user (given_id msg generated))
      (message_text msg (given_id msg generated)) files,
)

pub lookup-store :
    (sys : System) (root generated : Bytes) (msg : StoredMessage) (files : FileSystem) (q : Bytes)
    → let path = make_message_path root msg.mailbox_user (given_id msg generated) in
      bytes_eq (temp_path path) q ≡ false
      → All (λ x. lookup q x ≡ lookup q files) (store sys root generated msg files).passed
        × (lookup q (store sys root generated msg files).files ≡ (
            if stores sys msg && bytes_eq path q
            then some (message_text msg (given_id msg generated))
            else lookup q files))
unfolding store
lookup-store sys root generated msg files q n =
    let path = make_message_path root msg.mailbox_user (given_id msg generated) in
    let content = message_text msg (given_id msg generated) in
    ground (
      arith,
      write_atomically-ok sys path content files,
      write_atomically_lem sys path content files q n,
    )

pub lookup-delete_message :
    (sys : System) (root user id : Bytes) (files : FileSystem) (q : Bytes)
    → let path = make_message_path root user id in
      lookup q (delete_message sys root user id files).1
      ≡ (if sys.remove_ok path && bytes_eq path q then none else lookup q files)
unfolding delete_message
lookup-delete_message sys root user id files q =
    ground (arith, lookup-erase (make_message_path root user id) q files)

-- A message that is found in the inbox, where the system moves it.
abbrev pub moved : System → Bytes → Bytes → Bytes → FileSystem → Option Bytes
moved sys root user id files =
    if sys.directory_ok && sys.rename_ok
    then lookup (make_message_path root user id) files
    else none

pub lookup-move_to_quarantine :
    (sys : System) (root user id : Bytes) (files : FileSystem) (q : Bytes)
    → lookup q (move_to_quarantine sys root user id files).1 ≡ elim (moved sys root user id files) [
      | none ↦ lookup q files
      | some content ↦
          if bytes_eq (make_quarantine_path root user id) q
          then some content
          else if bytes_eq (make_message_path root user id) q
          then none
          else lookup q files
    ]
unfolding move_to_quarantine rename
lookup-move_to_quarantine sys root user id files q =
    let p = make_message_path root user id in
    let p' = make_quarantine_path root user id in
    elim (Option-cases (lookup p files)) [
      | inl e ↦ simp e (ground arith)
      | inr (content, e) ↦
          simp e
            (ground (arith, lookup-insert p' q content (erase p files), lookup-erase p q files))
    ]
