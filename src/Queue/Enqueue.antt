-- ===== src/Queue/Enqueue.antt =====
-- What `enqueue` of queue/mail_queue.cpp promises its caller, from the crash safety of its write.
use email_server_backend.Base.{◌<◌, ◌≤◌, ◌≡◌, Bytes, if◌then◌else◌, some}
use email_server_backend.Queue.Disk.{active, FilePath, Disk, read, path_eq}
use email_server_backend.Queue.Ops.{
  Machine, message_path, depth_of, max_queue_depth, Enqueued, queued, depth_exceeded, write_failed,
}

-- For the path `q`: a queued message is in its file of queue/active, and `enqueue` changes no other
-- file; an exception changes none.
abbrev pub EnqueueReport : Machine → Bytes → Bytes → Disk → FilePath → Enqueued → Type 0
EnqueueReport m id content d q (queued id' d') =
    (id' ≡ id)
    × (depth_of active d < max_queue_depth)
    × (read q d' ≡ (
        if path_eq (message_path active id) q
        then some (record { content = content; written = m.now })
        else read q d))
EnqueueReport m id content d q (depth_exceeded d') =
    (max_queue_depth ≤ depth_of active d) × (d' ≡ d)
EnqueueReport m id content d q (write_failed d') = read q d' ≡ read q d
