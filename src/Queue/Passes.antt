-- ===== src/Queue/Passes.antt =====
-- Passes of the retry worker (queue/retry_worker.cpp) over the queue: what becomes of a message.
use email_server_backend.Base.{
  ◌≡◌, refl, ◌⊎◌, inl, inr, true, false, List, [], ◌∷◌, arith, Bytes, bytes_eq, bytes_eq_iff,
  is_empty, Bool-cases, Option-cases, some,
}
use email_server_backend.Queue.Disk.{
  active, inflight, failure, permanent_fail, FilePath, Disk, exists, path_eq, read-remove,
}
use email_server_backend.Queue.Envelope.{QueueMessage}
use email_server_backend.Queue.Ops.{
  Machine, message_path, rename, try_rename, fetch_ready, mark_success, mark_temp_fail,
  mark_perm_fail,
}
use email_server_backend.Queue.Worker.{
  DeliveryResult, settle, or_unknown, Request, delivers, scans, submits, handle_message, run_once,
}
use email_server_backend.Queue.Moves.{
  present, exists-move, present-try_rename, fetch_ready-present, fetch_ready-failure,
  message_path-ne,
}

mark_success-present :
    (m : Machine) (s id : Bytes) (d : Disk)
    → bytes_eq s id ≡ false
    → present id d ≡ true
    → present id (mark_success m s d).disk ≡ true
unfolding mark_success present exists path_eq
mark_success-present m s id d n h = ground (
  arith,
  read-remove (message_path inflight s) (message_path active id) d,
  read-remove (message_path inflight s) (message_path inflight id) d,
  read-remove (message_path inflight s) (message_path failure id) d,
  read-remove (message_path inflight s) (message_path permanent_fail id) d,
)

-- What a worker that has this message, and this answer to its delivery, may lose.
settle-present :
    (m : Machine) (message : QueueMessage) (r : DeliveryResult) (id : Bytes) (d : Disk)
    → present id d ≡ true
    → (present id (settle m message r d).disk ≡ true) ⊎ ((message.id ≡ id) × (r.success ≡ true))
unfolding settle mark_temp_fail mark_perm_fail
settle-present m message r id d h = ground (
  arith,
  mark_success-present m message.id id d,
  bytes_eq_iff message.id id,
  present-try_rename m inflight failure message.id id d h,
  present-try_rename m inflight permanent_fail message.id id d h,
)

handle_message-present :
    (m : Machine) (deliver : Bytes → Bytes → Bytes → DeliveryResult) (message : QueueMessage)
    (id : Bytes) (d : Disk)
    → present id d ≡ true
    → (present id (handle_message m deliver message d).disk ≡ true)
      ⊎ ((message.id ≡ id)
          × ((deliver (or_unknown message.from) (or_unknown message.to) message.raw_data).success
              ≡ true))
unfolding handle_message mark_temp_fail
handle_message-present m deliver message id d h = elim (Bool-cases (is_empty message.raw_data)) [
  | inl e ↦ rw e (inl (present-try_rename m inflight failure message.id id d h))
  | inr e ↦ rw e (
      settle-present m message
        (deliver (or_unknown message.from) (or_unknown message.to) message.raw_data) id d h)
]

-- What was asked of the delivery client, the scanner and the sandbox for a message.
abbrev pub asked : QueueMessage → List Request
asked message =
    delivers (or_unknown message.from) (or_unknown message.to) message.raw_data
    ∷ scans message.id message.raw_data
    ∷ submits message.id message.raw_data
    ∷ []

-- No pass of the worker loses a message that was not delivered: a message that is in one of the
-- four directories before it is in one of them after it, or it is the one that the pass leased and
-- the delivery client accepted.
pub run_once-present :
    (m : Machine) (deliver : Bytes → Bytes → Bytes → DeliveryResult) (id : Bytes) (d : Disk)
    → present id d ≡ true
    → (present id (run_once m deliver d).disk ≡ true)
      ⊎ ((message : QueueMessage) × ((fetch_ready m d).message ≡ some message)
          × (message.id ≡ id)
          × ((deliver (or_unknown message.from) (or_unknown message.to) message.raw_data).success
              ≡ true))
unfolding run_once
run_once-present m deliver id d h =
    let kept = fetch_ready-present m id d h in
    elim (Option-cases (fetch_ready m d).message) [
      | inl e ↦ rw (e, run_once) (inl kept)
      | inr (message, e) ↦
          rw (e, run_once)
            (elim (handle_message-present m deliver message id (fetch_ready m d).disk kept) [
              | inl there ↦ inl there
              | inr (same, sent) ↦ inr (message, refl, same, sent)
            ])
    ]

-- One pass after the other, each with what the system and the delivery client decide in it.
unfoldable pub passes : List (Machine × (Bytes → Bytes → Bytes → DeliveryResult)) → Disk → Disk
passes [] d = d
passes ((m, deliver) ∷ rest) d = passes rest (run_once m deliver d).disk

fetched_failed :
    (m : Machine) (id : Bytes) (d : Disk)
    → exists (message_path failure id) d ≡ true
    → exists (message_path failure id) (fetch_ready m d).disk ≡ true
unfolding exists
fetched_failed m id d h = rw (fetch_ready-failure m id d, exists) h

exists-try_rename :
    (m : Machine) (p q r : FilePath) (d : Disk)
    → path_eq p r ≡ false
    → exists r d ≡ true
    → exists r (try_rename m p q d) ≡ true
unfolding try_rename
exists-try_rename m p q r d n h = elim (Option-cases (rename m p q d)) [
  | inl e ↦ rw (e, try_rename) h
  | inr (d', e) ↦
      rw (e, try_rename) (ground (arith, exists-move p q r d d' (unfold rename in ground arith)))
]

exists-mark_success :
    (m : Machine) (s id : Bytes) (d : Disk)
    → exists (message_path failure id) d ≡ true
    → exists (message_path failure id) (mark_success m s d).disk ≡ true
unfolding mark_success exists
exists-mark_success m s id d h = ground (
  arith,
  message_path-ne inflight failure s id refl,
  read-remove (message_path inflight s) (message_path failure id) d,
)

exists-settle :
    (m : Machine) (message : QueueMessage) (r : DeliveryResult) (id : Bytes) (d : Disk)
    → exists (message_path failure id) d ≡ true
    → exists (message_path failure id) (settle m message r d).disk ≡ true
unfolding settle mark_temp_fail mark_perm_fail
exists-settle m message r id d h =
    let p = message_path inflight message.id in
    let ne = message_path-ne inflight failure message.id id refl in
    ground (
      arith,
      exists-mark_success m message.id id d h,
      exists-try_rename m p (message_path failure message.id) (message_path failure id) d ne h,
      exists-try_rename m p (message_path permanent_fail message.id) (message_path failure id) d ne
          h,
    )

run_once-stays_failed :
    (m : Machine) (deliver : Bytes → Bytes → Bytes → DeliveryResult) (id : Bytes) (d : Disk)
    → exists (message_path failure id) d ≡ true
    → exists (message_path failure id) (run_once m deliver d).disk ≡ true
unfolding run_once handle_message mark_temp_fail
run_once-stays_failed m deliver id d h =
    let d' = (fetch_ready m d).disk in
    let kept : exists (message_path failure id) d' ≡ true = fetched_failed m id d h in
    elim (Option-cases (fetch_ready m d).message) [
      | inl e ↦ rw (e, run_once) kept
      | inr (message, e) ↦
          rw (e, run_once)
            (elim (Bool-cases (is_empty message.raw_data)) [
              | inl n ↦ rw n (
                  exists-try_rename m (message_path inflight message.id)
                    (message_path failure message.id) (message_path failure id) d'
                    (message_path-ne inflight failure message.id id refl) kept)
              | inr n ↦ rw n (
                  exists-settle m message
                    (deliver (or_unknown message.from) (or_unknown message.to) message.raw_data) id
                    d' kept)
            ])
    ]

-- A message in queue/failure is still there after any number of passes of the worker, whatever the
-- system and the delivery client decide in them: a delivery that failed for a time is never tried
-- again.
pub passes-stays_failed :
    (ms : List (Machine × (Bytes → Bytes → Bytes → DeliveryResult))) (id : Bytes) (d : Disk)
    → exists (message_path failure id) d ≡ true
    → exists (message_path failure id) (passes ms d) ≡ true
unfolding passes
passes-stays_failed [] id d h = h
passes-stays_failed ((m, deliver) ∷ ms) id d h =
    passes-stays_failed ms id (run_once m deliver d).disk (run_once-stays_failed m deliver id d h)
