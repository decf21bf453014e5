-- ===== src/Queue/Tests.antt =====
-- Tests of the queue on a small disk, and its theorems at concrete disks.
use email_server_backend.Base.{
  ◌≡◌, ◌⊎◌, refl, true, false, [], ◌∷◌, arith, Bytes, text, find, find_from, substr, starts_with,
  bytes_eq, is_empty, All, if◌then◌else◌, ◌&&◌, none, some,
}
use email_server_backend.Queue.Disk.{
  active, inflight, failure, File, Disk, read, write, remove, exists, move, path_eq,
}
use email_server_backend.Queue.Envelope.{
  QueueMessage, parse_message, queued_text, drop_blanks, trim_end, line_after,
}
use email_server_backend.Queue.Ops.{
  Machine, message_path, temp_path, atomic_write_file, rename, try_rename, is_lease_expired,
  reclaim_one, reclaim, open_leased, lease_one, lease, fetch_ready, mark_temp_fail,
}
use email_server_backend.Queue.Worker.{DeliveryResult, settle, handle_message, run_once, or_unknown}
use email_server_backend.Queue.RoundTrip.{OneLine, parse_message-queued_text}
use email_server_backend.Queue.Durability.{atomic_write_file_lem}
use email_server_backend.Queue.Moves.{present, fetch_ready-present}
use email_server_backend.Queue.Passes.{run_once-present}

abbrev machine : Machine
machine = record {
  now = 1000;
  create_ok = true;
  write_ok = true;
  flush_ok = true;
  replace_ok = true;
  rename_ok = λ p q. true;
  open_ok = λ p. true;
  remove_ok = λ p. true;
}

abbrev one : Bytes
one = text "1"

abbrev two : Bytes
two = text "2"

abbrev queued_one : File
queued_one = record { content = queued_text (text "a@x") (text "b@y") (text "hi"); written = 10 }

-- One message waits, and one failed.
abbrev disk : Disk
disk = (message_path active one, queued_one) ∷ (message_path failure two, queued_one) ∷ []

abbrev refuse : Bytes → Bytes → Bytes → DeliveryResult
refuse from to raw = record { success = false; permanent_failure = false }

abbrev accept : Bytes → Bytes → Bytes → DeliveryResult
accept from to raw = record { success = true; permanent_failure = false }

disk_has_one : present one disk ≡ true
unfolding present exists read path_eq text bytes_eq
disk_has_one = refl

-- A refused message lies in queue/failure after the pass.
refused_fails : exists (message_path failure one) (run_once machine refuse disk).disk ≡ true
unfolding run_once fetch_ready reclaim reclaim_one lease lease_one open_leased rename try_rename
    move read write remove exists path_eq bytes_eq text queued_text is_empty parse_message
    line_after trim_end drop_blanks find find_from substr starts_with handle_message settle
    mark_temp_fail is_lease_expired
refused_fails = refl

run_once-present_example :
    (present one (run_once machine accept disk).disk ≡ true)
    ⊎ ((message : QueueMessage) × ((fetch_ready machine disk).message ≡ some message)
        × (message.id ≡ one)
        × ((accept (or_unknown message.from) (or_unknown message.to) message.raw_data).success
            ≡ true))
run_once-present_example = run_once-present machine accept one disk disk_has_one

disk_has_failed : exists (message_path failure two) disk ≡ true
unfolding exists read path_eq text bytes_eq
disk_has_failed = refl

fetch_ready-present_example : present one (fetch_ready machine disk).disk ≡ true
fetch_ready-present_example = fetch_ready-present machine one disk disk_has_one

temp_is_other : path_eq (temp_path (message_path active one)) (message_path active two) ≡ false
unfolding path_eq text bytes_eq
temp_is_other = refl

atomic_write_file_lem_example :
    let w = atomic_write_file machine (message_path active one) (text "hello") disk in
    All (λ x. read (message_path active two) x ≡ read (message_path active two) disk) w.passed
    × (read (message_path active two) w.disk ≡ (
        if w.ok && path_eq (message_path active one) (message_path active two)
        then some (record { content = text "hello"; written = machine.now })
        else read (message_path active two) disk))
atomic_write_file_lem_example =
    atomic_write_file_lem active one machine (text "hello") disk (message_path active two)
      temp_is_other

abbrev leased_disk : Disk
leased_disk = (message_path inflight one, queued_one) ∷ (message_path failure two, queued_one) ∷ []

one_is_active : read (message_path active one) disk ≡ some queued_one
unfolding read path_eq text bytes_eq
one_is_active = refl

one_is_leased :
    rename machine (message_path active one) (message_path inflight one) disk ≡ some leased_disk
unfolding rename move read write remove path_eq text bytes_eq
one_is_leased = refl

sender_is_OneLine : OneLine (text "a@x")
unfolding text
sender_is_OneLine = ground arith

recipient_is_OneLine : OneLine (text "b@y")
unfolding text
recipient_is_OneLine = ground arith

sender_is_trimmed : trim_end (text "a@x") ≡ text "a@x"
unfolding trim_end drop_blanks text
sender_is_trimmed = refl

recipient_is_trimmed : trim_end (text "b@y") ≡ text "b@y"
unfolding trim_end drop_blanks text
recipient_is_trimmed = refl

sender_has_no_key : find (text "TO: ") (text "a@x") ≡ none
unfolding find starts_with text
sender_has_no_key = refl

parse_message-queued_text_example :
    let m = parse_message one (queued_text (text "a@x") (text "b@y") (text "hi")) in
    (m.from ≡ text "a@x") × (m.to ≡ text "b@y")
parse_message-queued_text_example =
    parse_message-queued_text one (text "a@x") (text "b@y") (text "hi") sender_is_OneLine
      recipient_is_OneLine sender_is_trimmed recipient_is_trimmed sender_has_no_key
