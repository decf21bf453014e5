-- ===== src/Queue/Worker.antt =====
-- `RetryWorker::runOnce` of queue/retry_worker.cpp. The delivery client and the scanners are not
-- part of the queue: a delivery is answered by a function, and what is asked of them is recorded.
use email_server_backend.Base.{
  Bool, false, List, [], ◌∷◌, Bytes, text, is_empty, if◌then◌else◌, none, some,
}
use email_server_backend.Queue.Disk.{Disk}
use email_server_backend.Queue.Envelope.{QueueMessage}
use email_server_backend.Queue.Ops.{
  Machine, Outcome, returned, fetch_ready, mark_success, mark_temp_fail, mark_perm_fail,
}

-- struct DeliveryResult, without its texts.
pub record DeliveryResult : Type 0 where
  pub success : Bool
  pub permanent_failure : Bool

pub data Request : Type 0 where
  delivers : Bytes → Bytes → Bytes → Request
  scans submits : Bytes → Bytes → Request

pub record Pass : Type 0 where
  pub disk : Disk
  pub requests : List Request
  pub threw : Bool

abbrev pub or_unknown : Bytes → Bytes
or_unknown address = if is_empty address then text "unknown@localhost" else address

unfoldable pub settle : Machine → QueueMessage → DeliveryResult → Disk → Outcome
settle m message r d =
    if r.success
    then mark_success m message.id d
    else if r.permanent_failure
    then returned (mark_perm_fail m message d)
    else returned (mark_temp_fail m message d)

unfoldable pub handle_message :
    Machine → (Bytes → Bytes → Bytes → DeliveryResult) → QueueMessage → Disk → Pass
handle_message m deliver message d =
    let from = or_unknown message.from in
    let to = or_unknown message.to in
    if is_empty message.raw_data
    then record { disk = mark_temp_fail m message d; requests = []; threw = false }
    else (let settled = settle m message (deliver from to message.raw_data) d in
        record {
          disk = settled.disk;
          requests =
              delivers from to message.raw_data
              ∷ (if settled.threw
                  then []
                  else scans message.id message.raw_data
                    ∷ submits message.id message.raw_data
                    ∷ []);
          threw = settled.threw;
        })

unfoldable pub run_once : Machine → (Bytes → Bytes → Bytes → DeliveryResult) → Disk → Pass
run_once m deliver d =
    let fetched = fetch_ready m d in
    elim fetched.message [
      | none ↦ record { disk = fetched.disk; requests = []; threw = false }
      | some message ↦ handle_message m deliver message fetched.disk
    ]
