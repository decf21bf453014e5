-- ===== src/Delivery/Queue.antt =====
-- The worker of queue/retry_worker.cpp with the client of delivery/smtp_client.cpp.
use email_server_backend.Base.{
  ◌≡◌, true, false, not, ◌&&◌, if◌then◌else◌, arith, Bytes, is_empty, none,
}
use email_server_backend.Queue.Disk.{
  Disk, FilePath, inflight, read, exists, path_eq, path_eq_iff, read-remove,
}
use email_server_backend.Queue.Envelope.{QueueMessage}
use email_server_backend.Queue.Ops.{Machine, message_path, mark_success}
use email_server_backend.Queue.Worker.{DeliveryResult, or_unknown, settle, handle_message}
use email_server_backend.Delivery.SmtpClient.{Peer, deliver}
use email_server_backend.Delivery.Transcript.{delivers, deliver-success}

abbrev pub client : (Bytes → Peer) → Bytes → Bytes → Bytes → DeliveryResult
client peers from to raw =
    let r = deliver peers from to raw in
    record { success = r.success; permanent_failure = r.permanent_failure }

-- A message that is not empty, and whose recipient's host accepts it, leaves the queue when the
-- worker handles it and the system can remove its file: the file is gone from queue/inflight
-- afterwards, and each other file is what it was. Where the system cannot, the file stays as it
-- was, and if it is there, the pass ends with an exception; in no other case does it.
pub handle_message-delivered :
    (m : Machine) (peers : Bytes → Peer) (message : QueueMessage) (d : Disk) (q : FilePath)
    → is_empty message.raw_data ≡ false
    → delivers peers (or_unknown message.to) ≡ true
    → let p = message_path inflight message.id in
      let after = handle_message m (client peers) message d in
      (read p after.disk ≡ (if m.remove_ok p then none else read p d))
      × ((path_eq p q ≡ false → read q after.disk ≡ read q d)
          × (after.threw ≡ (exists p d && not (m.remove_ok p))))
unfolding handle_message settle mark_success exists
handle_message-delivered m peers message d q n a =
    let p = message_path inflight message.id in
    let ok =
      deliver-success peers (or_unknown message.from) (or_unknown message.to) message.raw_data in
    ground (arith, ok, a, n, path_eq_iff p p, read-remove p p d, read-remove p q d)
