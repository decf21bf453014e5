-- ===== src/Delivery/SmtpClient.antt =====
-- `SmtpDeliveryClient` of delivery/smtp_client.cpp: a delivery to one host, and the hosts of a
-- recipient. The answers of the peer are a list with one entry for each call of `recv`.
use email_server_backend.Base.{
  ℕ, ◌+◌, Bool, true, false, not, List, [], ◌∷◌, ◌++◌, Bytes, text, find, drop, ◌==◌, if◌then◌else◌,
  none, some,
}

-- struct DeliveryResult
pub record Result : Type 0 where
  pub success : Bool
  pub permanent_failure : Bool
  pub error_message : Bytes
  pub retry_after_seconds : ℕ

-- One call of `recv`: bytes, at least one, or 0, or a negative result.
pub data Reply : Type 0 where
  answered : ℕ → Bytes → Reply
  closed failed : Reply

-- Which of the calls before the greeting succeed, and what the peer answers. Behind the list,
-- `recv` fails. `what` is the text of the exception that a negative length raises.
pub record Peer : Type 0 where
  pub resolves : Bool
  pub has_socket : Bool
  pub connects : Bool
  pub replies : List Reply
  pub what : Bytes

-- The result, what was sent, the latest first, and how often the socket was closed.
pub record Delivery : Type 0 where
  pub result : Result
  pub sent : List Bytes
  pub closes : ℕ

unfoldable pub head_reply : List Reply → Reply
head_reply [] = Reply.failed
head_reply (r ∷ rs) = r

unfoldable pub tail_replies : List Reply → List Reply
tail_replies [] = []
tail_replies (r ∷ rs) = rs

unfoldable pub starts_reply : ℕ → Reply → Bool
starts_reply c (Reply.answered b s) = b == c
starts_reply c Reply.closed = false
starts_reply c Reply.failed = false

-- `buffer[0]`, which a failing `recv` leaves as it was.
unfoldable pub first_byte : Reply → ℕ → ℕ
first_byte (Reply.answered b s) stale = b
first_byte Reply.closed stale = stale
first_byte Reply.failed stale = stale

abbrev pub temporary : Bytes → ℕ → Result
temporary message seconds = record {
  success = false;
  permanent_failure = false;
  error_message = message;
  retry_after_seconds = seconds;
}

abbrev rejected : Bytes → ℕ → Result
rejected message first = record {
  success = false;
  permanent_failure = first == b'5';
  error_message = message;
  retry_after_seconds = if first == b'5' then 0 else 300;
}

-- `std::string(buffer, n)` with a negative length throws.
unfoldable pub reject : Peer → Bytes → ℕ → Reply → Result
reject peer label stale (Reply.answered b s) = rejected (label ++ b ∷ s) b
reject peer label stale Reply.closed = rejected label stale
reject peer label stale Reply.failed =
    temporary (text "Exception during delivery: " ++ peer.what) 300

unfoldable pub send_message : Peer → Bytes → ℕ → List Reply → List Bytes → Delivery
unfolding first_byte head_reply
send_message peer raw stale rs sent =
    let said = text "\r\n.\r\n" ∷ raw ∷ sent in
    let r = head_reply rs in
    if not (starts_reply b'2' r)
    then record {
      result = reject peer (text "Message rejected: ") stale r;
      sent = said;
      closes = 1;
    }
    else record {
      result = record {
        success = true;
        permanent_failure = false;
        error_message = [];
        retry_after_seconds = 0;
      };
      sent = text "QUIT\r\n" ∷ said;
      closes = 1;
    }

unfoldable pub send_data : Peer → Bytes → ℕ → List Reply → List Bytes → Delivery
unfolding first_byte head_reply tail_replies
send_data peer raw stale rs sent =
    let said = text "DATA\r\n" ∷ sent in
    let r = head_reply rs in
    if not (starts_reply b'3' r)
    then record { result = temporary (text "DATA command failed") 60; sent = said; closes = 1 }
    else send_message peer raw (first_byte r stale) (tail_replies rs) said

unfoldable pub send_rcpt_to : Peer → Bytes → Bytes → ℕ → List Reply → List Bytes → Delivery
unfolding first_byte head_reply tail_replies
send_rcpt_to peer to raw stale rs sent =
    let said = (text "RCPT TO:<" ++ (to ++ text ">\r\n")) ∷ sent in
    let r = head_reply rs in
    if not (starts_reply b'2' r)
    then record {
      result = reject peer (text "RCPT TO rejected: ") stale r;
      sent = said;
      closes = 1;
    }
    else send_data peer raw (first_byte r stale) (tail_replies rs) said

unfoldable pub send_mail_from :
    Peer → Bytes → Bytes → Bytes → ℕ → List Reply → List Bytes → Delivery
unfolding first_byte head_reply tail_replies
send_mail_from peer from to raw stale rs sent =
    let said = (text "MAIL FROM:<" ++ (from ++ text ">\r\n")) ∷ sent in
    let r = head_reply rs in
    if not (starts_reply b'2' r)
    then record {
      result = reject peer (text "MAIL FROM rejected: ") stale r;
      sent = said;
      closes = 1;
    }
    else send_rcpt_to peer to raw (first_byte r stale) (tail_replies rs) said

unfoldable pub send_ehlo : Peer → Bytes → Bytes → Bytes → ℕ → List Reply → Delivery
unfolding first_byte head_reply tail_replies
send_ehlo peer from to raw stale rs =
    let said = text "EHLO mailserver.local\r\n" ∷ [] in
    let r = head_reply rs in
    if not (starts_reply b'2' r)
    then record { result = temporary (text "EHLO failed") 60; sent = said; closes = 1 }
    else send_mail_from peer from to raw (first_byte r stale) (tail_replies rs) said

-- Any greeting will do.
unfoldable pub read_greeting : Peer → Bytes → Bytes → Bytes → Delivery
unfolding head_reply tail_replies
read_greeting peer from to raw = elim (head_reply peer.replies) [
  | answered b s ↦ send_ehlo peer from to raw b (tail_replies peer.replies)
  | closed ↦ record {
    result = temporary (text "Failed to read SMTP greeting") 60;
    sent = [];
    closes = 1;
  }
  | failed ↦ record {
    result = temporary (text "Failed to read SMTP greeting") 60;
    sent = [];
    closes = 1;
  }
]

unfoldable pub connect_and_deliver : Peer → Bytes → Bytes → Bytes → Bytes → Delivery
connect_and_deliver peer host from to raw =
    if not peer.resolves
    then record {
      result = temporary (text "DNS resolution failed for " ++ host) 300;
      sent = [];
      closes = 0;
    }
    else if not peer.has_socket
    then record { result = temporary (text "Failed to create socket") 60; sent = []; closes = 0 }
    else if not peer.connects
    then record {
      result = temporary (text "Connection failed to " ++ host) 300;
      sent = [];
      closes = 1;
    }
    else read_greeting peer from to raw

-- The domain itself stands for its mail servers.
unfoldable pub lookup_mx : Bytes → List Bytes
lookup_mx domain = domain ∷ []

-- Each host is its own peer.
unfoldable pub try_hosts : (Bytes → Peer) → List Bytes → Bytes → Bytes → Bytes → Bytes → Result
try_hosts peers [] domain from to raw = temporary (text "All MX hosts failed for " ++ domain) 300
try_hosts peers (host ∷ hosts) domain from to raw =
    let r = (connect_and_deliver (peers host) host from to raw).result in
    let rest = try_hosts peers hosts domain from to raw in
    if r.success then r else if r.permanent_failure then r else rest

unfoldable pub deliver : (Bytes → Peer) → Bytes → Bytes → Bytes → Result
unfolding lookup_mx
deliver peers from to raw = elim (find (text "@") to) [
  | none ↦ record {
    success = false;
    permanent_failure = true;
    error_message = text "Invalid recipient address: " ++ to;
    retry_after_seconds = 0;
  }
  | some at ↦ let domain = drop (at + 1) to in try_hosts peers (lookup_mx domain) domain from to raw
]
