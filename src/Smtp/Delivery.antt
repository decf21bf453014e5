-- ===== src/Smtp/Delivery.antt =====
-- Delivery by DATA in smtp/smtp_session.cpp: a message that a client sends is the message that is
-- stored, and so is one that is cut off.
use email_server_backend.Base.{
  suc, ◌≤◌, ◌≡◌, refl, sym, subst, false, List, [], ◌∷◌, Bytes, text, length, All, is_empty,
}
use email_server_backend.Smtp.Link.{Event, sent, stores, counted, Recv, send_line}
use email_server_backend.Smtp.Session.{Session, Env, stored_as}
use email_server_backend.Smtp.Message.{
  complete, collect, envelope, finish_store, finish_data, receive_message, handle_data,
}
use email_server_backend.Smtp.Transfer.{
  wire, lines_then, joined, counted_size, Sendable, collect-wire, collect-cut,
}
use email_server_backend.Smtp.Data.{ready}

-- The trace of a DATA command that stored `msg` and acknowledged it.
abbrev pub delivery_trace : Session → Bytes → Bytes → List Event
delivery_trace s first message =
    counted (text "smtp_messages_accepted_total")
    ∷ sent s.tls_active (text "250 Message accepted for delivery")
    ∷ stores (envelope s first message)
    ∷ sent s.tls_active (text "354 End data with <CR><LF>.<CR><LF>")
    ∷ s.trace

module _ (env : Env) (s : Session) (first : Bytes) (others lines : List Bytes) (id : Bytes)
    (addressed : s.recipients ≡ first ∷ others) (sendable : All Sendable lines)
    (within : counted_size lines ≤ env.max_message_size)
    (stored : env.store (ready s).trace (envelope s first (joined lines)) ≡ stored_as id)
    (some_id : is_empty id ≡ false) where
  delivered :
      (rest : List Recv)
      → collect (suc (length s.input)) env.max_message_size 0 [] (ready s)
        ≡ complete (joined lines) (record (ready s) { input = rest })
      → ((handle_data env s).input ≡ rest)
        × ((handle_data env s).trace ≡ delivery_trace s first (joined lines))
  unfolding handle_data send_line
  delivered rest e =
      subst
        (λ (rcpts : List Bytes).
          ((receive_message env rcpts s).input ≡ rest)
          × ((receive_message env rcpts s).trace ≡ delivery_trace s first (joined lines)))
        (sym addressed) (rw (e, finish_data) (rw (stored, finish_store) (rw some_id (refl, refl))))

  -- A message sent with dot-stuffing, within the limit, in lines of at most 1024 bytes as sent,
  -- without CR and LF in them, is handed to the store exactly as its lines read, and acknowledged
  -- where the store gives it a non-empty id; the session goes on behind the final dot.
  pub handle_data-wire :
      (rest : List Recv)
      → s.input ≡ wire lines rest
      → ((handle_data env s).input ≡ rest)
        × ((handle_data env s).trace ≡ delivery_trace s first (joined lines))
  unfolding send_line
  handle_data-wire rest i = delivered rest (
      subst
        (λ (k : List Recv).
          collect (suc (length k)) env.max_message_size 0 [] (record (ready s) { input = k })
          ≡ complete (joined lines) (record (ready s) { input = rest }))
        (sym i) (collect-wire lines env.max_message_size (ready s) rest sendable within))

  -- A connection that ends before the final dot stores the lines that came as if they were the
  -- whole message, and acknowledges them.
  pub handle_data-cut :
      s.input ≡ lines_then lines []
      → ((handle_data env s).input ≡ [])
        × ((handle_data env s).trace ≡ delivery_trace s first (joined lines))
  unfolding send_line
  handle_data-cut i = delivered [] (
      subst
        (λ (k : List Recv).
          collect (suc (length k)) env.max_message_size 0 [] (record (ready s) { input = k })
          ≡ complete (joined lines) (record (ready s) { input = [] }))
        (sym i) (collect-cut lines env.max_message_size (ready s) sendable within))
