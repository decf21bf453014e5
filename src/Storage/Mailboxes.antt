-- ===== src/Storage/Mailboxes.antt =====
-- What `MailStore` promises of its mailboxes: each user has an inbox and a quarantine, which map
-- the identifier of a message to its text. The files of storage/mail_store.cpp and
-- retro/retro_manager.cpp implement it.
use email_server_backend.Base.{
  ◌≡◌, ◌∙◌, refl, ℕ, zero, suc, ◌&&◌, List, [], ◌∷◌, arith, Bytes, bytes_eq, All, if◌then◌else◌,
  Option, none, some, lookup,
}
use email_server_backend.Smtp.Link.{StoredMessage}
use email_server_backend.Storage.Files.{FileSystem, System}
use email_server_backend.Storage.MailStore.{
  make_message_path, make_quarantine_path, recover_temp_files, store, given_id, message_text,
  RetroAction, RetroEvent, execute, move_to_quarantine, delete_message,
}
use email_server_backend.Storage.Names.{IsName}
use email_server_backend.Storage.Paths.{
  make_message_path_iff, make_quarantine_path_iff, make_message_path_ne, make_quarantine_path_ne,
  temp_ne_message, temp_ne_quarantine, message_not_temp, quarantine_not_temp,
}
use email_server_backend.Storage.Writes.{
  stores, lookup-store, lookup-delete_message, lookup-move_to_quarantine, recover_temp_files_lem,
}

-- The abstract mailboxes.
abbrev pub Box : Type 0
Box = Bytes → Bytes → Option Bytes

pub record Boxes : Type 0 where
  pub inbox : Box
  pub quarantined : Box

abbrev set : Bytes → Bytes → Option Bytes → Box → Box
set user id o box v j = if bytes_eq user v && bytes_eq id j then o else box v j

-- What happens to a store: a delivery, a delivery that a crash ends after some of its writes, a
-- retroactive action, and a start of the program.
pub data Event : Type 0 where
  delivered : System → Bytes → StoredMessage → Event
  crashed : System → Bytes → StoredMessage → ℕ → Event
  applied : System → RetroEvent → Event
  started : System → Event

abbrev nth : ℕ → List FileSystem → FileSystem → FileSystem
nth n [] files = files
nth zero (x ∷ xs) files = x
nth (suc n) (x ∷ xs) files = nth n xs files

unfoldable pub handle : Bytes → Event → FileSystem → FileSystem
handle root (Event.delivered sys generated msg) files = (store sys root generated msg files).files
handle root (Event.crashed sys generated msg n) files =
    nth n (store sys root generated msg files).passed files
handle root (Event.applied sys e) files = execute sys root e files
handle root (Event.started sys) files = recover_temp_files sys root files

unfoldable pub handle_events : Bytes → List Event → FileSystem → FileSystem
handle_events root [] files = files
handle_events root (e ∷ es) files = handle_events root es (handle root e files)

abbrev quarantine_message : Bytes → Bytes → Boxes → Boxes
quarantine_message user id b = elim (b.inbox user id) [
  | none ↦ b
  | some content ↦ record {
    inbox = set user id none b.inbox;
    quarantined = set user id (some content) b.quarantined;
  }
]

unfoldable pub specified : Bytes → Event → Boxes → Boxes
specified root (Event.delivered sys generated msg) b =
    let id = given_id msg generated in
    if stores sys msg
    then record {
      inbox = set msg.mailbox_user id (some (message_text msg id)) b.inbox;
      quarantined = b.quarantined;
    }
    else b
specified root (Event.crashed sys generated msg n) b = b
specified root (Event.applied sys e) b = elim e.action [
  | RetroAction.quarantine ↦
      if sys.directory_ok && sys.rename_ok
      then quarantine_message e.mailbox_user e.message_id b
      else b
  | RetroAction.delete ↦
      if sys.remove_ok (make_message_path root e.mailbox_user e.message_id)
      then record {
        inbox = set e.mailbox_user e.message_id none b.inbox;
        quarantined = b.quarantined;
      }
      else b
]
specified root (Event.started sys) b = b

unfoldable pub specified_events : Bytes → List Event → Boxes → Boxes
specified_events root [] b = b
specified_events root (e ∷ es) b = specified_events root es (specified root e b)

-- The names that an event uses are names of one path component.
abbrev pub IsClean : Event → Type 0
IsClean (Event.delivered sys generated msg) =
    IsName msg.mailbox_user × IsName (given_id msg generated)
IsClean (Event.crashed sys generated msg n) =
    IsName msg.mailbox_user × IsName (given_id msg generated)
IsClean (Event.applied sys e) = IsName e.mailbox_user × IsName e.message_id
IsClean (Event.started sys) = Unit

-- The files hold what the mailboxes say.
abbrev pub Holds : Bytes → FileSystem → Boxes → Type 0
Holds root files b =
    (user id : Bytes)
    → IsName user
    → IsName id
    → (lookup (make_message_path root user id) files ≡ b.inbox user id)
      × (lookup (make_quarantine_path root user id) files ≡ b.quarantined user id)

module _ (root : Bytes) (files : FileSystem) (b : Boxes) (h : Holds root files b) where
  store-Holds :
      (sys : System) (generated : Bytes) (msg : StoredMessage)
      → IsName msg.mailbox_user
      → IsName (given_id msg generated)
      → Holds root
          (store sys root generated msg files).files
          (specified root (Event.delivered sys generated msg) b)
  unfolding specified
  store-Holds sys generated msg c d v j k l =
      let u = msg.mailbox_user in
      let id = given_id msg generated in
      let path = make_message_path root u id in
      let q = make_message_path root v j in
      let q' = make_quarantine_path root v j in
      ground (
        arith,
        h v j k l,
        lookup-store sys root generated msg files q (temp_ne_message root v j k l path),
        lookup-store sys root generated msg files q' (temp_ne_quarantine root v j k l path),
        make_message_path_iff root u id c d v j k l,
        make_message_path_ne root u id c d v j k l,
      )

  delete_message-Holds :
      (sys : System) (u id r : Bytes)
      → IsName u
      → IsName id
      → Holds root (delete_message sys root u id files).1 (
          specified root
            (Event.applied sys (record {
              mailbox_user = u;
              message_id = id;
              reason = r;
              action = RetroAction.delete;
            }))
            b)
  unfolding specified
  delete_message-Holds sys u id r c d v j k l = ground (
    arith,
    h v j k l,
    lookup-delete_message sys root u id files (make_message_path root v j),
    lookup-delete_message sys root u id files (make_quarantine_path root v j),
    make_message_path_iff root u id c d v j k l,
    make_message_path_ne root u id c d v j k l,
  )

  move_to_quarantine-Holds :
      (sys : System) (u id r : Bytes)
      → IsName u
      → IsName id
      → Holds root (move_to_quarantine sys root u id files).1 (
          specified root
            (Event.applied sys (record {
              mailbox_user = u;
              message_id = id;
              reason = r;
              action = RetroAction.quarantine;
            }))
            b)
  unfolding specified
  move_to_quarantine-Holds sys u id r c d v j k l = ground (
    arith,
    h v j k l,
    (h u id c d).0,
    lookup-move_to_quarantine sys root u id files (make_message_path root v j),
    lookup-move_to_quarantine sys root u id files (make_quarantine_path root v j),
    make_message_path_iff root u id c d v j k l,
    make_message_path_ne root u id c d v j k l,
    make_quarantine_path_iff root u id c d v j k l,
    make_quarantine_path_ne root v j k l u id c d,
  )

  execute-Holds :
      (sys : System) (u id r : Bytes) (a : RetroAction)
      → IsName u
      → IsName id
      → let e : RetroEvent = record { mailbox_user = u; message_id = id; reason = r; action = a } in
        Holds root (execute sys root e files) (specified root (Event.applied sys e) b)
  unfolding specified execute
  execute-Holds sys u id r RetroAction.quarantine c d = move_to_quarantine-Holds sys u id r c d
  execute-Holds sys u id r RetroAction.delete c d = delete_message-Holds sys u id r c d

  recover_temp_files-Holds : (sys : System) → Holds root (recover_temp_files sys root files) b
  recover_temp_files-Holds sys v j k l = ground (
    arith,
    h v j k l,
    recover_temp_files_lem sys root files (make_message_path root v j),
    recover_temp_files_lem sys root files (make_quarantine_path root v j),
    message_not_temp root v j k l,
    quarantine_not_temp root v j k l,
  )

nth-same :
    (n : ℕ) (q : Bytes) (xs : List FileSystem) (files : FileSystem)
    → All (λ x. lookup q x ≡ lookup q files) xs
    → lookup q (nth n xs files) ≡ lookup q files
nth-same n q [] files h = refl
nth-same zero q (x ∷ xs) files h = h.0
nth-same (suc n) q (x ∷ xs) files h = nth-same n q xs files h.1

crash-Holds :
    (root : Bytes) (sys : System) (generated : Bytes) (msg : StoredMessage) (n : ℕ)
    (files : FileSystem) (b : Boxes)
    → Holds root files b
    → Holds root (nth n (store sys root generated msg files).passed files) b
crash-Holds root sys generated msg n files b h v j k l =
    let path = make_message_path root msg.mailbox_user (given_id msg generated) in
    let q = make_message_path root v j in
    let q' = make_quarantine_path root v j in
    let xs = (store sys root generated msg files).passed in
    (
      nth-same n q xs files
            (lookup-store sys root generated msg files q (temp_ne_message root v j k l path)).0
          ∙ (h v j k l).0,
      nth-same n q' xs files
            (lookup-store sys root generated msg files q' (temp_ne_quarantine root v j k l path)).0
          ∙ (h v j k l).1,
    )

handle-Holds :
    (root : Bytes) (e : Event) (files : FileSystem) (b : Boxes)
    → IsClean e
    → Holds root files b
    → Holds root (handle root e files) (specified root e b)
unfolding handle specified
handle-Holds root (Event.delivered sys generated msg) files b (c, d) h =
    store-Holds root files b h sys generated msg c d
handle-Holds root (Event.crashed sys generated msg n) files b (c, d) h =
    crash-Holds root sys generated msg n files b h
handle-Holds root (Event.applied sys e) files b (c, d) h =
    execute-Holds root files b h sys e.mailbox_user e.message_id e.reason e.action c d
handle-Holds root (Event.started sys) files b c h = recover_temp_files-Holds root files b h sys

-- The files of the mail store implement its mailboxes: if the files hold a state of the
-- mailboxes, then after any sequence of deliveries, deliveries cut off by a crash, retroactive
-- actions and starts of the program, with any outcome of the system's calls and with names of
-- one path component, they hold the state that the same events give the mailboxes.
pub handle_events_refinement :
    (root : Bytes) (es : List Event) (files : FileSystem) (b : Boxes)
    → All IsClean es
    → Holds root files b
    → Holds root (handle_events root es files) (specified_events root es b)
unfolding handle_events specified_events
handle_events_refinement root [] files b c h = h
handle_events_refinement root (e ∷ es) files b (c, cs) h =
    handle_events_refinement root es (handle root e files) (specified root e b) cs
      (handle-Holds root e files b c h)
