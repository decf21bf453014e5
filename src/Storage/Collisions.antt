-- ===== src/Storage/Collisions.antt =====
-- What `MailStore::store` of storage/mail_store.cpp does with two messages of one identifier.
use email_server_backend.Base.{
  ◌≡◌, refl, true, [], arith, Bytes, bytes_eq_iff, is_empty, some, lookup,
}
use email_server_backend.Smtp.Link.{StoredMessage}
use email_server_backend.Storage.Files.{FileSystem, System}
use email_server_backend.Storage.MailStore.{make_message_path, store, given_id, message_text}
use email_server_backend.Storage.Names.{IsName}
use email_server_backend.Storage.Paths.{temp_ne_message}
use email_server_backend.Storage.Writes.{stores, store-id, lookup-store}

stored_lem :
    (sys : System) (root generated : Bytes) (msg : StoredMessage) (files : FileSystem)
    → IsName msg.mailbox_user
    → IsName (given_id msg generated)
    → stores sys msg ≡ true
    → (store sys root generated msg files).id ≡ given_id msg generated
      × (lookup
            (make_message_path root msg.mailbox_user (given_id msg generated))
            (store sys root generated msg files).files
          ≡ some (message_text msg (given_id msg generated)))
stored_lem sys root generated msg files c d ok =
    let path = make_message_path root msg.mailbox_user (given_id msg generated) in
    ground (
      arith,
      store-id sys root generated msg files,
      lookup-store sys root generated msg files path
          (temp_ne_message root msg.mailbox_user (given_id msg generated) c d path),
      bytes_eq_iff path path,
    )

-- Two deliveries to one user that are given the same identifier leave one message: where the
-- system's calls succeed, both return that identifier, and the file of the message has the text
-- of the first delivery and then that of the second one alone.
pub store_overwrites :
    (sys : System) (root generated : Bytes) (m n : StoredMessage) (files : FileSystem)
    → IsName m.mailbox_user
    → IsName generated
    → stores sys m ≡ true
    → m.id ≡ []
    → n.id ≡ []
    → n.mailbox_user ≡ m.mailbox_user
    → let first = store sys root generated m files in
      let second = store sys root generated n first.files in
      let path = make_message_path root m.mailbox_user generated in
      (first.id ≡ generated)
      × ((lookup path first.files ≡ some (message_text m generated))
          × ((second.id ≡ generated)
              × (lookup path second.files ≡ some (message_text n generated))))
unfolding is_empty
store_overwrites sys root generated m n files c d ok p q same =
    let g : given_id m generated ≡ generated = simp p refl in
    let g' : given_id n generated ≡ generated = simp q refl in
    let first = store sys root generated m files in
    let one = stored_lem sys root generated m files c (rw g d) ok in
    let two = stored_lem sys root generated n first.files (rw same c) (rw g' d) (rw same ok) in
    (cc (one.0, g), (cc (one.1, g), (cc (two.0, g'), cc (two.1, g', same))))
