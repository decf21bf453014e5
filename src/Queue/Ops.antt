-- ===== src/Queue/Ops.antt =====
-- The operations of queue/mail_queue.cpp. What the operating system decides is a `Machine`: which
-- steps of a write succeed, which renames and reads do, and the time in seconds.
use email_server_backend.Base.{
  ℕ, suc, ◌-◌, Bool, true, false, ◌&&◌, not, List, [], ◌∷◌, ◌++◌, Bytes, text, is_empty, ltb, leb,
  if◌then◌else◌, Option, none, some,
}
use email_server_backend.Queue.Disk.{
  Dir, active, inflight, failure, permanent_fail, dir_eq, msg, tmp, ext_eq, FilePath, File, Disk,
  read, write, remove, exists, move,
}
use email_server_backend.Queue.Envelope.{queued_text, QueueMessage, parse_message}

pub record Machine : Type 0 where
  pub now : ℕ
  pub create_ok : Bool
  pub write_ok : Bool
  pub flush_ok : Bool
  pub replace_ok : Bool
  pub rename_ok : FilePath → FilePath → Bool
  pub open_ok : FilePath → Bool
  pub remove_ok : FilePath → Bool

abbrev pub message_path : Dir → Bytes → FilePath
message_path dir id = record { dir = dir; stem = id; ext = msg }

-- path + ".tmp"
abbrev pub temp_path : FilePath → FilePath
temp_path p = record { dir = p.dir; stem = p.stem ++ text ".msg"; ext = tmp }

-- Whether a write succeeded, the disk after it, and the disks that it went through before, any of
-- which a crash may leave behind.
pub record Written : Type 0 where
  pub ok : Bool
  pub disk : Disk
  pub passed : List Disk

unfoldable pub atomic_write_file : Machine → FilePath → Bytes → Disk → Written
atomic_write_file m p content d =
    let t = temp_path p in
    let created = write t (record { content = []; written = m.now }) d in
    let filled = write t (record { content = content; written = m.now }) d in
    let replaced = write p (record { content = content; written = m.now }) (remove t filled) in
    if not m.create_ok
    then record { ok = false; disk = d; passed = [] }
    else if not m.write_ok
    then record { ok = false; disk = remove t created; passed = created ∷ d ∷ [] }
    else if not m.flush_ok
    then record { ok = false; disk = remove t filled; passed = filled ∷ created ∷ d ∷ [] }
    else if not m.replace_ok
    then record { ok = false; disk = remove t filled; passed = filled ∷ created ∷ d ∷ [] }
    else record { ok = exists p replaced; disk = replaced; passed = filled ∷ created ∷ d ∷ [] }

-- `recoverOrphanedTempFiles`: a removal that fails is skipped.
unfoldable pub recover_orphaned_temp_files : Machine → Disk → Disk
recover_orphaned_temp_files m [] = []
recover_orphaned_temp_files m ((p, f) ∷ d) =
    let rest = recover_orphaned_temp_files m d in
    if ext_eq p.ext tmp && m.remove_ok p then rest else (p, f) ∷ rest

abbrev pub is_message_in : Dir → FilePath → Bool
is_message_in dir p = dir_eq p.dir dir && ext_eq p.ext msg

unfoldable pub depth_of : Dir → Disk → ℕ
depth_of dir [] = 0
depth_of dir ((p, f) ∷ d) =
    let rest = depth_of dir d in if is_message_in dir p then suc rest else rest

abbrev pub max_queue_depth : ℕ
max_queue_depth = 100000

-- The id of the queued message, or one of the two exceptions.
pub data Enqueued : Type 0 where
  queued : Bytes → Disk → Enqueued
  depth_exceeded write_failed : Disk → Enqueued

-- `id` is the value of `genId()`.
unfoldable pub enqueue : Machine → Bytes → Bytes → Bytes → Bytes → Disk → Enqueued
enqueue m id from to raw d =
    let w = atomic_write_file m (message_path active id) (queued_text from to raw) d in
    if leb max_queue_depth (depth_of active d)
    then depth_exceeded d
    else if w.ok
    then queued id w.disk
    else write_failed w.disk

unfoldable pub ids_in : Dir → Disk → List Bytes
ids_in dir [] = []
ids_in dir ((p, f) ∷ d) =
    let rest = ids_in dir d in if is_message_in dir p then p.stem ∷ rest else rest

-- The ids that `list` returns.
unfoldable pub list_ids : Disk → List Bytes
unfolding ids_in
list_ids d = ids_in active d ++ (ids_in inflight d ++ ids_in failure d)

abbrev pub lease_timeout_sec : ℕ
lease_timeout_sec = 300

unfoldable pub is_lease_expired : Machine → File → Bool
is_lease_expired m f = ltb lease_timeout_sec (m.now - f.written)

-- fs::rename, which throws where the file is missing or the system refuses.
unfoldable pub rename : Machine → FilePath → FilePath → Disk → Option Disk
rename m p q d = if m.rename_ok p q then move p q d else none

-- A rename in `try { … } catch (...) {}`.
unfoldable pub try_rename : Machine → FilePath → FilePath → Disk → Disk
try_rename m p q d = elim (rename m p q d) [ none ↦ d | some d' ↦ d' ]

unfoldable pub reclaim_one : Machine → FilePath → File → Disk → Disk
reclaim_one m p f d =
    if is_message_in inflight p && is_lease_expired m f
    then try_rename m p (message_path active p.stem) d
    else d

-- The first loop of `fetchReady`, over the files that it finds in queue/inflight.
unfoldable pub reclaim : Machine → Disk → Disk → Disk
reclaim m [] d = d
reclaim m ((p, f) ∷ found) d = reclaim m found (reclaim_one m p f d)

pub record Fetched : Type 0 where
  pub disk : Disk
  pub message : Option QueueMessage

abbrev continue_with : Disk → Fetched
continue_with d = record { disk = d; message = none }

-- The leased file is opened, read and parsed.
unfoldable pub open_leased : Machine → Bytes → Disk → Fetched
open_leased m id d = elim (read (message_path inflight id) d) [
  | none ↦ continue_with d
  | some f ↦
      if not (m.open_ok (message_path inflight id))
      then continue_with (try_rename m (message_path inflight id) (message_path active id) d)
      else if is_empty f.content
      then continue_with
          (try_rename m (message_path inflight id) (message_path permanent_fail id) d)
      else record { disk = d; message = some (parse_message id f.content) }
]

unfoldable pub lease_one : Machine → Bytes → Disk → Fetched
lease_one m id d =
    if exists (message_path inflight id) d
    then continue_with d
    else elim (rename m (message_path active id) (message_path inflight id) d) [
      | none ↦ continue_with d
      | some d' ↦ open_leased m id d'
    ]

-- The second loop of `fetchReady`, over the files that it finds in queue/active.
unfoldable pub lease : Machine → Disk → Disk → Fetched
lease m [] d = continue_with d
lease m ((p, f) ∷ found) d =
    let rest = lease m found d in
    if is_message_in active p
    then (let one = lease_one m p.stem d in
        elim one.message [ none ↦ lease m found one.disk | some message ↦ one ])
    else rest

unfoldable pub fetch_ready : Machine → Disk → Fetched
fetch_ready m d = let d' = reclaim m d d in lease m d' d'

-- The disk after a call, and whether an exception left the call.
pub record Outcome : Type 0 where
  pub disk : Disk
  pub threw : Bool

abbrev pub returned : Disk → Outcome
returned d = record { disk = d; threw = false }

-- fs::remove throws where the system refuses, and nothing here catches it.
unfoldable pub mark_success : Machine → Bytes → Disk → Outcome
mark_success m id d =
    let p = message_path inflight id in
    if exists p d
    then if m.remove_ok p then returned (remove p d) else record { disk = d; threw = true }
    else returned d

unfoldable pub mark_temp_fail : Machine → QueueMessage → Disk → Disk
mark_temp_fail m message d =
    try_rename m (message_path inflight message.id) (message_path failure message.id) d

unfoldable pub mark_perm_fail : Machine → QueueMessage → Disk → Disk
mark_perm_fail m message d =
    try_rename m (message_path inflight message.id) (message_path permanent_fail message.id) d
