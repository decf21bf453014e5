-- ===== src/Delivery/Tests.antt =====
-- A delivery by delivery/smtp_client.cpp to a host that accepts.
use email_server_backend.Base.{
  ◌≡◌, refl, true, false, [], ◌∷◌, ◌&&◌, text, is_empty, find, starts_with, if◌then◌else◌, none,
}
use email_server_backend.Queue.Disk.{Disk, inflight, read, exists, path_eq}
use email_server_backend.Queue.Envelope.{QueueMessage}
use email_server_backend.Queue.Ops.{Machine, message_path}
use email_server_backend.Queue.Worker.{handle_message}
use email_server_backend.Delivery.SmtpClient.{Reply, Peer, connect_and_deliver, starts_reply}
use email_server_backend.Delivery.Transcript.{
  accepts, has_five, transcript, connect_and_deliver_lem,
}
use email_server_backend.Delivery.Queue.{client, handle_message-delivered}

abbrev ok : Reply
ok = Reply.answered b'2' []

abbrev host : Peer
host = record {
  resolves = true;
  has_socket = true;
  connects = true;
  replies = ok ∷ ok ∷ ok ∷ ok ∷ Reply.answered b'3' [] ∷ ok ∷ [];
  what = [];
}

connect_and_deliver_lem_example :
    let d =
      connect_and_deliver host (text "b.org") (text "a@a.org") (text "eve@b.org") (text "hi") in
    (d.result.success
      ≡ (host.resolves && (host.has_socket && (host.connects && accepts host.replies))))
    × ((d.result.permanent_failure ≡ true → has_five host.replies ≡ true)
        × ((d.closes ≡ (if host.resolves && host.has_socket then 1 else 0))
            × (d.result.success ≡ true
                → d.sent ≡ transcript (text "a@a.org") (text "eve@b.org") (text "hi"))))
connect_and_deliver_lem_example =
    connect_and_deliver_lem host (text "b.org") (text "a@a.org") (text "eve@b.org") (text "hi")

abbrev machine : Machine
machine = record {
  now = 1000;
  create_ok = true;
  write_ok = true;
  flush_ok = true;
  replace_ok = true;
  rename_ok = λ p q. true;
  open_ok = λ p. true;
  remove_ok = λ p. true;
}

abbrev queued : QueueMessage
queued = record {
  id = text "1";
  from = text "a@a.org";
  to = text "eve@b.org";
  raw_data = text "hi";
  retry_count = 0;
  enqueued_at = 0;
  next_retry_at = 0;
}

abbrev disk : Disk
disk = (message_path inflight (text "1"), record { content = text "x"; written = 0 }) ∷ []

handle_message-delivered_example :
    let p = message_path inflight (text "1") in
    let q = message_path inflight (text "2") in
    let after = handle_message machine (client (λ domain. host)) queued disk in
    (read p after.disk ≡ none)
    × ((path_eq p q ≡ false → read q after.disk ≡ read q disk)
        × (after.threw ≡ exists p disk && false))
unfolding text is_empty find starts_with starts_reply
handle_message-delivered_example =
    handle_message-delivered machine (λ domain. host) queued disk (message_path inflight (text "2"))
      refl refl
