-- ===== src/Smtp/Message.antt =====
-- `handleData` of smtp/smtp_session.cpp. The loop takes fuel: each round reads at least one entry
-- of the input, so one more than its length is enough.
use email_server_backend.Base.{
  ℕ, zero, suc, ◌+◌, ◌*◌, List, [], ◌∷◌, ◌++◌, Bytes, text, length, bytes_eq, is_empty, ltb, ◌==◌,
  if◌then◌else◌,
}
use email_server_backend.Smtp.Link.{
  Link, StoredMessage, emit, stores, send_line, count, read_line, Received, got, ended,
}
use email_server_backend.Smtp.Session.{Session, Env, StoreOutcome, stored_as, store_threw}
use email_server_backend.Smtp.Handlers.{reply}

-- Why the loop stops: a final dot or the end of the connection, with the text so far; a message
-- over the limit; the memory check; or no fuel.
pub data Transfer : Type 0 where
  complete : Bytes → Link → Transfer
  oversized : Link → Transfer
  too_complex : Link → Transfer
  out_of_fuel : Transfer

-- Dot-stuffing: a leading dot is removed.
unfoldable pub unstuff : Bytes → Bytes
unstuff [] = []
unstuff (c ∷ cs) = if c == b'.' then cs else c ∷ cs

-- The body of the loop; `next` is the rest of the loop.
unfoldable pub collect_line : ℕ → ℕ → Bytes → (ℕ → Bytes → Link → Transfer) → Received → Transfer
unfolding unstuff
collect_line max_size size message next (ended l) = complete message l
collect_line max_size size message next (got line l) =
    let content = unstuff line in
    let size' = size + (length content + 2) in
    let rest = next size' (message ++ (content ++ b'\n' ∷ [])) l in
    if bytes_eq line (text ".")
    then complete message l
    else if ltb max_size size'
    then oversized l
    else if ltb (max_size * 2) (length message)
    then too_complex l
    else rest

unfoldable pub collect : ℕ → ℕ → ℕ → Bytes → Link → Transfer
unfolding collect_line
collect zero max_size size message l = out_of_fuel
collect (suc fuel) max_size size message l =
    collect_line max_size size message (collect fuel max_size) (read_line l)

unfoldable pub finish_store : StoreOutcome → Session → Session
unfolding reply count
finish_store (stored_as id) s =
    if is_empty id
    then reply (text "451 Internal error - storage failed") s
    else (let s' = reply (text "250 Message accepted for delivery") s in
        record s' { link = count (text "smtp_messages_accepted_total") s'.link })
finish_store store_threw s =
    reply (text "451 Internal error - storage failed")
      (record s { link = count (text "smtp_messages_rejected_total") s.link })

unfoldable pub envelope : Session → Bytes → Bytes → StoredMessage
envelope s first message = record {
  id = [];
  from = s.sender;
  recipients = s.recipients;
  raw_data = message;
  mailbox_user = first;
}

unfoldable pub finish_data : Env → Bytes → Transfer → Session → Session
unfolding reply finish_store emit envelope
finish_data env first (complete message l) s =
    let msg = envelope s first message in
    finish_store (env.store l.trace msg) (record s { link = emit (stores msg) l })
finish_data env first (oversized l) s =
    reply (text "552 Message size exceeds maximum permitted") (record s { link = l })
finish_data env first (too_complex l) s =
    reply (text "451 Internal error - message too complex") (record s { link = l })
finish_data env first out_of_fuel s = s

unfoldable pub receive_message : Env → List Bytes → Session → Session
unfolding reply send_line finish_data
receive_message env [] s = reply (text "503 No recipients specified") s
receive_message env (first ∷ _) s =
    let ready = send_line (text "354 End data with <CR><LF>.<CR><LF>") s.link in
    finish_data env first (collect (suc (length s.input)) env.max_message_size 0 [] ready) s

unfoldable pub handle_data : Env → Session → Session
unfolding receive_message
handle_data env s = receive_message env s.recipients s
