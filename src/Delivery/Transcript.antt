-- ===== src/Delivery/Transcript.antt =====
-- When a delivery by delivery/smtp_client.cpp succeeds, and what it has sent then.
use email_server_backend.Base.{
  ℕ, ◌+◌, ◌≡◌, refl, Bool, true, false, ◌&&◌, ◌||◌, List, [], ◌∷◌, ◌++◌, arith, Bytes, text, find,
  drop, ◌==◌, if◌then◌else◌, Option-cases, none, some, inl, inr,
}
use email_server_backend.Delivery.SmtpClient.{
  Reply, Peer, Delivery, starts_reply, reject, send_message, send_data, send_rcpt_to,
  send_mail_from, send_ehlo, read_greeting, connect_and_deliver, try_hosts, deliver,
}

-- The replies begin with these bytes, one after the other.
abbrev pub matches : Bytes → List Reply → Bool
matches [] rs = true
matches (c ∷ cs) [] = false
matches (c ∷ cs) (r ∷ rs) = starts_reply c r && matches cs rs

-- A greeting, and the replies that accept a message.
abbrev pub accepts : List Reply → Bool
accepts [] = false
accepts (Reply.answered b s ∷ rs) = matches (text "22232") rs
accepts (Reply.closed ∷ rs) = false
accepts (Reply.failed ∷ rs) = false

abbrev pub has_five : List Reply → Bool
has_five [] = false
has_five (r ∷ rs) = starts_reply b'5' r || has_five rs

-- What is sent for a message, the latest first.
abbrev pub transcript : Bytes → Bytes → Bytes → List Bytes
transcript from to raw =
    text "QUIT\r\n"
    ∷ text "\r\n.\r\n"
    ∷ raw
    ∷ text "DATA\r\n"
    ∷ (text "RCPT TO:<" ++ (to ++ text ">\r\n"))
    ∷ (text "MAIL FROM:<" ++ (from ++ text ">\r\n"))
    ∷ text "EHLO mailserver.local\r\n"
    ∷ []

abbrev pub AnswersTo : Bytes → List Reply → List Bytes → Delivery → Type 0
AnswersTo codes rs all d =
    (d.result.success ≡ matches codes rs)
    × ((d.result.permanent_failure ≡ true → has_five rs ≡ true)
        × ((d.closes ≡ 1) × (d.result.success ≡ true → d.sent ≡ all)))

module _ (peer : Peer) (from to raw : Bytes) where
  send_message-AnswersTo :
      (stale : ℕ) (rs : List Reply) (sent : List Bytes)
      → (stale == b'5') ≡ false
      → AnswersTo
          (text "2")
          rs
          (text "QUIT\r\n" ∷ text "\r\n.\r\n" ∷ raw ∷ sent)
          (send_message peer raw stale rs sent)
  unfolding send_message reject text starts_reply
  send_message-AnswersTo stale [] sent h = ground arith
  send_message-AnswersTo stale (Reply.answered b s ∷ rs) sent h = ground arith
  send_message-AnswersTo stale (Reply.closed ∷ rs) sent h = ground (arith, h)
  send_message-AnswersTo stale (Reply.failed ∷ rs) sent h = ground arith

  send_data-AnswersTo :
      (stale : ℕ) (rs : List Reply) (sent : List Bytes)
      → (stale == b'5') ≡ false
      → AnswersTo
          (text "32")
          rs
          (text "QUIT\r\n" ∷ text "\r\n.\r\n" ∷ raw ∷ text "DATA\r\n" ∷ sent)
          (send_data peer raw stale rs sent)
  unfolding send_data text starts_reply
  send_data-AnswersTo stale [] sent h = ground arith
  send_data-AnswersTo stale (Reply.answered b s ∷ rs) sent h =
      ground (arith, send_message-AnswersTo b rs (text "DATA\r\n" ∷ sent))
  send_data-AnswersTo stale (Reply.closed ∷ rs) sent h = ground arith
  send_data-AnswersTo stale (Reply.failed ∷ rs) sent h = ground arith

  send_rcpt_to-AnswersTo :
      (stale : ℕ) (rs : List Reply) (sent : List Bytes)
      → (stale == b'5') ≡ false
      → AnswersTo
          (text "232")
          rs
          (text "QUIT\r\n"
            ∷ text "\r\n.\r\n"
            ∷ raw
            ∷ text "DATA\r\n"
            ∷ (text "RCPT TO:<" ++ (to ++ text ">\r\n"))
            ∷ sent)
          (send_rcpt_to peer to raw stale rs sent)
  unfolding send_rcpt_to reject text starts_reply
  send_rcpt_to-AnswersTo stale [] sent h = ground arith
  send_rcpt_to-AnswersTo stale (Reply.answered b s ∷ rs) sent h =
      ground (arith, send_data-AnswersTo b rs ((text "RCPT TO:<" ++ (to ++ text ">\r\n")) ∷ sent))
  send_rcpt_to-AnswersTo stale (Reply.closed ∷ rs) sent h = ground (arith, h)
  send_rcpt_to-AnswersTo stale (Reply.failed ∷ rs) sent h = ground arith

  send_mail_from-AnswersTo :
      (stale : ℕ) (rs : List Reply)
      → (stale == b'5') ≡ false
      → AnswersTo
          (text "2232")
          rs
          (transcript from to raw)
          (send_mail_from peer from to raw stale rs (text "EHLO mailserver.local\r\n" ∷ []))
  unfolding send_mail_from reject text starts_reply
  send_mail_from-AnswersTo stale [] h = ground arith
  send_mail_from-AnswersTo stale (Reply.answered b s ∷ rs) h = ground (
    arith,
    send_rcpt_to-AnswersTo b rs
        ((text "MAIL FROM:<" ++ (from ++ text ">\r\n")) ∷ text "EHLO mailserver.local\r\n" ∷ []),
  )
  send_mail_from-AnswersTo stale (Reply.closed ∷ rs) h = ground (arith, h)
  send_mail_from-AnswersTo stale (Reply.failed ∷ rs) h = ground arith

  send_ehlo-AnswersTo :
      (stale : ℕ) (rs : List Reply)
      → AnswersTo (text "22232") rs (transcript from to raw) (send_ehlo peer from to raw stale rs)
  unfolding send_ehlo text starts_reply
  send_ehlo-AnswersTo stale [] = ground arith
  send_ehlo-AnswersTo stale (Reply.answered b s ∷ rs) =
      ground (arith, send_mail_from-AnswersTo b rs)
  send_ehlo-AnswersTo stale (Reply.closed ∷ rs) = ground arith
  send_ehlo-AnswersTo stale (Reply.failed ∷ rs) = ground arith

  read_greeting-Answers :
      (rs : List Reply)
      → peer.replies ≡ rs
      → let d = read_greeting peer from to raw in
        (d.result.success ≡ accepts rs)
        × ((d.result.permanent_failure ≡ true → has_five rs ≡ true)
            × ((d.closes ≡ 1) × (d.result.success ≡ true → d.sent ≡ transcript from to raw)))
  unfolding read_greeting text
  read_greeting-Answers [] e = rw (e, read_greeting) (ground arith)
  read_greeting-Answers (Reply.answered b s ∷ rs) e =
      rw (e, read_greeting) (ground (arith, send_ehlo-AnswersTo b rs))
  read_greeting-Answers (Reply.closed ∷ rs) e = rw (e, read_greeting) (ground arith)
  read_greeting-Answers (Reply.failed ∷ rs) e = rw (e, read_greeting) (ground arith)

-- A delivery to a host succeeds exactly if it is reached, greets, and answers EHLO, MAIL and RCPT
-- with 2, DATA with 3 and the message with 2, and then exactly the transcript of these commands
-- and the message was sent; it fails permanently only where an answer of the peer begins with 5;
-- and the socket is closed exactly once, if there is one.
pub connect_and_deliver_lem :
    (peer : Peer) (host from to raw : Bytes)
    → let d = connect_and_deliver peer host from to raw in
      (d.result.success
        ≡ (peer.resolves && (peer.has_socket && (peer.connects && accepts peer.replies))))
      × ((d.result.permanent_failure ≡ true → has_five peer.replies ≡ true)
          × ((d.closes ≡ (if peer.resolves && peer.has_socket then 1 else 0))
              × (d.result.success ≡ true → d.sent ≡ transcript from to raw)))
unfolding connect_and_deliver
connect_and_deliver_lem peer host from to raw =
    ground (arith, read_greeting-Answers peer from to raw peer.replies refl)

-- The hosts of a recipient's domain are reached, and accept the message.
abbrev pub delivers : (Bytes → Peer) → Bytes → Bool
delivers peers to = elim (find (text "@") to) [
  | none ↦ false
  | some at ↦
      let p = peers (drop (at + 1) to) in
      p.resolves && (p.has_socket && (p.connects && accepts p.replies))
]

pub deliver-success :
    (peers : Bytes → Peer) (from to raw : Bytes)
    → (deliver peers from to raw).success ≡ delivers peers to
unfolding deliver try_hosts
deliver-success peers from to raw = elim (Option-cases (find (text "@") to)) [
  | inl e ↦ rw (e, deliver, delivers) refl
  | inr (at, e) ↦
      let domain = drop (at + 1) to in
      rw (e, deliver, delivers)
        (ground (arith, connect_and_deliver_lem (peers domain) domain from to raw))
]
