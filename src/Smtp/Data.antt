-- ===== src/Smtp/Data.antt =====
-- `handleData` of smtp/smtp_session.cpp as a whole: what it leaves alone, what it stores, and when
-- it acknowledges a message.
use email_server_backend.Base.{
  suc, ◌≤◌, ◌≡◌, refl, ◌⊎◌, inl, inr, true, false, List, [], ◌∷◌, arith, Bytes, text, length,
  Bool-cases, is_empty,
}
use email_server_backend.Smtp.Link.{
  Link, Event, sent, stores, counted, StoredMessage, send_line, emit,
}
use email_server_backend.Smtp.Session.{Session, Env, StoreOutcome, stored_as, store_threw}
use email_server_backend.Smtp.Message.{
  Transfer, complete, oversized, too_complex, out_of_fuel, collect, envelope, finish_store,
  finish_data, receive_message, handle_data,
}
use email_server_backend.Smtp.Handlers.{reply}
use email_server_backend.Smtp.Lines.{Continues}
use email_server_backend.Smtp.Transfer.{TransferInv, collect-TransferInv}
use email_server_backend.Smtp.Sizes.{IsWhole, IsOver, IsMeasured, collect-IsMeasured}

-- The session differs at most in its input and its trace, and has read forward.
pub record OnlyTalks (s s' : Session) : Type 0 where
  pub same_tls : s'.tls_active ≡ s.tls_active
  pub same_open : s'.is_open ≡ s.is_open
  pub same_state : s'.state ≡ s.state
  pub same_authed : s'.authed ≡ s.authed
  pub same_readings : s'.readings ≡ s.readings
  pub same_peer_ip : s'.peer_ip ≡ s.peer_ip
  pub read : length s'.input ≤ length s.input

finish_store-OnlyTalks : (o : StoreOutcome) (s : Session) → OnlyTalks s (finish_store o s)
unfolding finish_store
finish_store-OnlyTalks (stored_as id) s = ground arith
finish_store-OnlyTalks store_threw s = ground arith

abbrev start_input : Bytes
start_input = text "354 End data with <CR><LF>.<CR><LF>"

abbrev pub ready : Session → Link
ready s = send_line start_input s.link

finish_data-OnlyTalks :
    (env : Env) (first : Bytes) (t : Transfer) (s : Session)
    → TransferInv env.max_message_size (ready s) t
    → OnlyTalks s (finish_data env first t s)
unfolding finish_data send_line
finish_data-OnlyTalks env first (complete message l) s h = ground arith
finish_data-OnlyTalks env first (oversized l) s h = ground arith
finish_data-OnlyTalks env first (too_complex l) s h = absurd h
finish_data-OnlyTalks env first out_of_fuel s h = absurd h

-- The transfer that `handleData` makes.
collect-ready :
    (env : Env) (s : Session)
    → TransferInv env.max_message_size
        (ready s)
        (collect (suc (length s.input)) env.max_message_size 0 [] (ready s))
unfolding send_line
collect-ready env s =
    collect-TransferInv _ _ 0 [] (ready s) (omega arith) (omega arith) (omega arith)

ready-IsMeasured :
    (env : Env) (s : Session)
    → IsMeasured env.max_message_size 0 []
        (ready s)
        (collect (suc (length s.input)) env.max_message_size 0 [] (ready s))
ready-IsMeasured env s = collect-IsMeasured _ _ 0 [] (ready s) (omega arith)

receive_message-OnlyTalks :
    (env : Env) (rcpts : List Bytes) (s : Session) → OnlyTalks s (receive_message env rcpts s)
unfolding receive_message
receive_message-OnlyTalks env [] s = ground arith
receive_message-OnlyTalks env (first ∷ others) s =
    finish_data-OnlyTalks env first _ s (collect-ready env s)

-- DATA changes nothing of the session but what was read and what was sent.
pub handle_data-OnlyTalks : (env : Env) (s : Session) → OnlyTalks s (handle_data env s)
unfolding handle_data
handle_data-OnlyTalks env s = receive_message-OnlyTalks env s.recipients s

-- The trace when the transfer is over: the invitation, and perhaps the complaint of `readLine`.
abbrev pub Invited : Session → List Event → Type 0
Invited s t =
    (t ≡ sent s.tls_active (text "354 End data with <CR><LF>.<CR><LF>") ∷ s.trace)
    ⊎ (t
        ≡ sent s.tls_active (text "500 Line too long")
          ∷ sent s.tls_active (text "354 End data with <CR><LF>.<CR><LF>")
          ∷ s.trace)

-- A message of this session, to be stored after the transfer: the lines up to the end, which are
-- within the limit.
pub record IsHanded (env : Env) (s : Session) (msg : StoredMessage) (l : Link) : Type 0 where
  pub invited : Invited s l.trace
  pub addressed :
      (first : Bytes) × (others : List Bytes) × ((s.recipients ≡ first ∷ others)
        × (msg ≡ envelope s first msg.raw_data))
  pub whole : IsWhole env.max_message_size 0 [] (ready s) l msg.raw_data
  pub within : length msg.raw_data ≤ env.max_message_size

-- The traces with which `handleData` may end.
pub data DataReport (env : Env) (s : Session) : List Event → Type 0 where
  no_recipient :
      (t : List Event)
      → s.recipients ≡ []
      → t ≡ sent s.tls_active (text "503 No recipients specified") ∷ s.trace
      → DataReport env s t
  rejected :
      (l : Link) (t : List Event)
      → Invited s l.trace
      → IsOver env.max_message_size 0 (ready s) l
      → t ≡ sent s.tls_active (text "552 Message size exceeds maximum permitted") ∷ l.trace
      → DataReport env s t
  accepted :
      (msg : StoredMessage) (id : Bytes) (l : Link) (t : List Event)
      → IsHanded env s msg l
      → env.store l.trace msg ≡ stored_as id
      → is_empty id ≡ false
      → t
        ≡ counted (text "smtp_messages_accepted_total")
          ∷ sent s.tls_active (text "250 Message accepted for delivery")
          ∷ stores msg
          ∷ l.trace
      → DataReport env s t
  not_stored :
      (msg : StoredMessage) (id : Bytes) (l : Link) (t : List Event)
      → IsHanded env s msg l
      → env.store l.trace msg ≡ stored_as id
      → is_empty id ≡ true
      → t ≡ sent s.tls_active (text "451 Internal error - storage failed") ∷ stores msg ∷ l.trace
      → DataReport env s t
  store_failed :
      (msg : StoredMessage) (l : Link) (t : List Event)
      → IsHanded env s msg l
      → env.store l.trace msg ≡ store_threw
      → t
        ≡ sent s.tls_active (text "451 Internal error - storage failed")
          ∷ counted (text "smtp_messages_rejected_total")
          ∷ stores msg
          ∷ l.trace
      → DataReport env s t

report_stored :
    (env : Env) (s : Session) (msg : StoredMessage) (l : Link) (o : StoreOutcome)
    → IsHanded env s msg l
    → l.tls_active ≡ s.tls_active
    → env.store l.trace msg ≡ o
    → DataReport env s (finish_store o (record s { link = emit (stores msg) l })).trace
unfolding finish_store emit
report_stored env s msg l (stored_as id) h e o = elim (Bool-cases (is_empty id)) [
  | inl no_id ↦ rw no_id (not_stored msg id l _ h o no_id (rw e))
  | inr some_id ↦ rw some_id (accepted msg id l _ h o some_id (rw e))
]
report_stored env s msg l store_threw h e o = store_failed msg l _ h o (rw e)

told-Invited : (s : Session) (l : Link) → Continues (ready s) l → Invited s l.trace
unfolding send_line
told-Invited s l c = c.told

finish_data-DataReport :
    (env : Env) (first : Bytes) (others : List Bytes) (t : Transfer) (s : Session)
    → s.recipients ≡ first ∷ others
    → TransferInv env.max_message_size (ready s) t
    → IsMeasured env.max_message_size 0 [] (ready s) t
    → DataReport env s (finish_data env first t s).trace
unfolding finish_data
finish_data-DataReport env first others (complete message l) s a h w =
    report_stored env s (envelope s first message) l _
      (record {
        invited = told-Invited s l h.1;
        addressed = (first, others, (a, unfold envelope in refl));
        whole = unfold envelope in w;
        within = unfold envelope in h.0;
      })
      (unfold send_line in h.1.same_tls) refl
finish_data-DataReport env first others (oversized l) s a h w =
    rejected l _ (told-Invited s l h) w (unfold send_line reply in rw (h.same_tls))
finish_data-DataReport env first others (too_complex l) s a h w = absurd h
finish_data-DataReport env first others out_of_fuel s a h w = absurd h

receive_message-DataReport :
    (env : Env) (rcpts : List Bytes) (s : Session)
    → s.recipients ≡ rcpts
    → DataReport env s (receive_message env rcpts s).trace
unfolding receive_message
receive_message-DataReport env [] s e = no_recipient _ e refl
receive_message-DataReport env (first ∷ others) s e =
    finish_data-DataReport env first others _ s e (collect-ready env s) (ready-IsMeasured env s)

pub handle_data-DataReport : (env : Env) (s : Session) → DataReport env s (handle_data env s).trace
unfolding handle_data
handle_data-DataReport env s = receive_message-DataReport env s.recipients s refl
