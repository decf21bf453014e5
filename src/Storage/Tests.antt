-- ===== src/Storage/Tests.antt =====
-- Runs of the mail store of storage/mail_store.cpp on two messages for one user.
use email_server_backend.Base.{
  ◌≡◌, refl, true, List, [], ◌∷◌, arith, Bytes, text, is_empty, none, some, lookup, starts_with,
  ends_with, bytes_eq,
}
use email_server_backend.Smtp.Link.{StoredMessage}
use email_server_backend.Storage.Files.{System, join}
use email_server_backend.Storage.MailStore.{
  make_user_inbox_dir, make_message_path, message_text, RetroAction,
}
use email_server_backend.Storage.Mailboxes.{
  Boxes, Event, handle_events, specified, specified_events, Holds, handle_events_refinement,
}

abbrev working : System
working = record {
  directory_ok = true;
  create_ok = true;
  write_ok = true;
  flush_ok = true;
  replace_ok = true;
  rename_ok = true;
  remove_ok = λ p. true;
}

abbrev root : Bytes
unfolding text
root = text "mail"

abbrev letter : Bytes → StoredMessage
unfolding text
letter body = record {
  id = [];
  from = text "bob@a.org";
  recipients = text "eve@b.org" ∷ [];
  raw_data = body;
  mailbox_user = text "eve";
}

letter_path : make_message_path root (text "eve") (text "17") ≡ text "mail/eve/INBOX/17.eml"
unfolding text make_message_path make_user_inbox_dir join starts_with ends_with is_empty bytes_eq
letter_path = refl

abbrev no_boxes : Boxes
no_boxes = record { inbox = λ user id. none; quarantined = λ user id. none }

abbrev happened : List Event
unfolding text
happened =
    Event.started working
    ∷ Event.delivered working (text "17") (letter (text "hi"))
    ∷ Event.crashed working (text "18") (letter (text "ho")) 1
    ∷ Event.applied working (record {
      mailbox_user = text "eve";
      message_id = text "17";
      reason = [];
      action = RetroAction.quarantine;
    })
    ∷ []

-- The message that was delivered and then moved is in the quarantine, and nothing is in the inbox.
happened_lem :
    (specified_events root happened no_boxes).quarantined (text "eve") (text "17")
    ≡ some (message_text (letter (text "hi")) (text "17"))
unfolding specified_events specified text bytes_eq is_empty
happened_lem = refl

handle_events_refinement_example :
    Holds root (handle_events root happened []) (specified_events root happened no_boxes)
unfolding lookup text is_empty
handle_events_refinement_example =
    handle_events_refinement root happened [] no_boxes (ground arith) (λ user id u i. (refl, refl))
