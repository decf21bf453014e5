-- ===== src/Queue.antt =====
-- The mail queue of queue/mail_queue.h and queue/mail_queue.cpp, and the worker of
-- queue/retry_worker.cpp that delivers from it.
pub mod Disk
pub mod Envelope
pub mod Ops
pub mod Worker
pub mod Passes
pub mod Leases
pub mod Moves
pub mod RoundTrip
pub mod Durability
mod Tests
pub mod Enqueue
