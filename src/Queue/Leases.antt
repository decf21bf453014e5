-- ===== src/Queue/Leases.antt =====
-- The lease that `fetchReady` of queue/mail_queue.cpp gives on a message.
use email_server_backend.Base.{
  ◌-◌, ◌<◌, ◌≡◌, refl, ◌∙◌, inl, inr, true, false, [], ◌∷◌, arith, Bytes, is_empty, Bool-cases,
  Option-cases, ltb_iff, Option, none, some,
}
use email_server_backend.Queue.Disk.{
  active, inflight, FilePath, File, Disk, read, exists, move, path_eq, path_eq_iff,
}
use email_server_backend.Queue.Envelope.{QueueMessage, parse_message}
use email_server_backend.Queue.Ops.{
  Machine, message_path, is_message_in, is_lease_expired, lease_timeout_sec, rename, try_rename,
  reclaim_one, reclaim, open_leased, lease_one, lease, fetch_ready,
}
use email_server_backend.Queue.Moves.{message_path-ne, read-rename}

-- The message is read from a file of queue/inflight that has a text, and is not in queue/active.
abbrev pub IsLeased : Disk → Option QueueMessage → Type 0
IsLeased d none = Unit
IsLeased d (some message) =
    (f : File) × (read (message_path inflight message.id) d ≡ some f)
    × (message ≡ parse_message message.id f.content)
    × (is_empty f.content ≡ false)
    × (read (message_path active message.id) d ≡ none)

path_eq_refl : (p : FilePath) → path_eq p p ≡ true
path_eq_refl p = (path_eq_iff p p).1 refl

leased_gone :
    (m : Machine) (s : Bytes) (d d' : Disk)
    → rename m (message_path active s) (message_path inflight s) d ≡ some d'
    → read (message_path active s) d' ≡ none
leased_gone m s d d' r =
    let p = message_path active s in
    read-rename m p (message_path inflight s) p d d' r
    ∙ rw (message_path-ne inflight active s s refl, path_eq_refl p)

open_leased-IsLeased :
    (m : Machine) (s : Bytes) (d : Disk)
    → read (message_path active s) d ≡ none
    → IsLeased (open_leased m s d).disk (open_leased m s d).message
unfolding open_leased
open_leased-IsLeased m s d h = elim (Option-cases (read (message_path inflight s) d)) [
  | inl e ↦ rw (e, open_leased) tt
  | inr (f, e) ↦
      rw (e, open_leased)
        (elim (Bool-cases (m.open_ok (message_path inflight s))) [
          | inr k ↦ rw k tt
          | inl k ↦ rw k (elim (Bool-cases (is_empty f.content)) [
            | inl n ↦ rw n tt
            | inr n ↦ rw n (unfold parse_message in (f, e, refl, n, h))
          ])
        ])
]

lease_one-IsLeased :
    (m : Machine) (s : Bytes) (d : Disk) → IsLeased (lease_one m s d).disk (lease_one m s d).message
unfolding lease_one
lease_one-IsLeased m s d = elim (Bool-cases (exists (message_path inflight s) d)) [
  | inl e ↦ rw e tt
  | inr e ↦
      rw e (elim (Option-cases (rename m (message_path active s) (message_path inflight s) d)) [
        | inl r ↦ rw (r, lease_one) tt
        | inr (d', r) ↦ rw (r, lease_one) (open_leased-IsLeased m s d' (leased_gone m s d d' r))
      ])
]

lease-IsLeased :
    (m : Machine) (found d : Disk) → IsLeased (lease m found d).disk (lease m found d).message
unfolding lease
lease-IsLeased m [] d = tt
lease-IsLeased m ((p, f) ∷ found) d = elim (Bool-cases (is_message_in active p)) [
  | inr e ↦ rw e (lease-IsLeased m found d)
  | inl e ↦ rw e (
      let one = lease_one m p.stem d in
      elim (Option-cases one.message) [
        | inl n ↦ rw (n, lease) (lease-IsLeased m found one.disk)
        | inr (message, n) ↦ rw (n, lease) (lease_one-IsLeased m p.stem d)
      ])
]

-- A message that `fetchReady` returns is read from a non-empty file of queue/inflight with its id,
-- its addresses are parsed from that text, and queue/active does not hold it any more.
pub fetch_ready-IsLeased :
    (m : Machine) (d : Disk) → IsLeased (fetch_ready m d).disk (fetch_ready m d).message
unfolding fetch_ready
fetch_ready-IsLeased m d = let d' = reclaim m d d in lease-IsLeased m d' d'

read-try_rename_target :
    (m : Machine) (p q : FilePath) (f : File) (d : Disk)
    → m.rename_ok p q ≡ true
    → read p d ≡ some f
    → read q (try_rename m p q d) ≡ some f
unfolding try_rename
read-try_rename_target m p q f d o e = elim (Option-cases (rename m p q d)) [
  | inl n ↦ absurd (unfold rename move in ground arith)
  | inr (d', r) ↦ rw (r, try_rename) (read-rename m p q q d d' r ∙ rw (path_eq_refl q) e)
]

-- The time of a lease is that of the last write, which leasing keeps: a message that was queued
-- longer ago than the lease lasts is taken back at once by the next call, which then finds it in
-- queue/active again.
pub reclaim_one_fresh_lease :
    (m : Machine) (s : Bytes) (f : File) (d d' : Disk)
    → read (message_path active s) d ≡ some f
    → rename m (message_path active s) (message_path inflight s) d ≡ some d'
    → lease_timeout_sec < m.now - f.written
    → m.rename_ok (message_path inflight s) (message_path active s) ≡ true
    → (read (message_path inflight s) d' ≡ some f)
      × (read (message_path active s) (reclaim_one m (message_path inflight s) f d') ≡ some f)
unfolding reclaim_one is_lease_expired
reclaim_one_fresh_lease m s f d d' e r late ok =
    let p = message_path active s in
    let q = message_path inflight s in
    let held : read q d' ≡ some f = read-rename m p q q d d' r ∙ rw (path_eq_refl q) e in
    (held, rw ((ltb_iff _ _).1 late) (read-try_rename_target m q p f d' ok held))
