-- ===== src/Smtp/Link.antt =====
-- The wire side of smtp/smtp_session.cpp: `secureSend`, `secureRecv`, `sendLine`,
-- `sendMultilineResponse`, `readLine` and `closesocket`. What the peer sends is a list with one
-- entry for each call of `secureRecv`; what the session does to the world is its trace.
use email_server_backend.Base.{
  ℕ, suc, Bool, false, List, [], ◌∷◌, ◌++◌, Bytes, text, length, ltb, ◌==◌, if◌then◌else◌,
}

-- struct StoredMessage
pub record StoredMessage : Type 0 where
  pub id : Bytes
  pub from : Bytes
  pub recipients : List Bytes
  pub raw_data : Bytes
  pub mailbox_user : Bytes

-- One call of `secureRecv`: a byte, a negative result, a zero result, or an exception.
pub data Recv : Type 0 where
  byte : ℕ → Recv
  failed closed raised : Recv

-- What the session does: a line is sent, under TLS or not, before CR LF is put behind it.
pub data Event : Type 0 where
  sent : Bool → Bytes → Event
  counted : Bytes → Event
  stores : StoredMessage → Event
  closes : Event
  releases : Bytes → Event

-- `trace` has the latest event first. `open_` is `sock_ != INVALID_SOCKET`.
pub record Link : Type 0 where
  pub tls_active : Bool
  pub is_open : Bool
  pub input : List Recv
  pub trace : List Event

unfoldable pub emit : Event → Link → Link
emit e l = record l { trace = e ∷ l.trace }

unfoldable pub send_line : Bytes → Link → Link
unfolding emit
send_line line l = emit (sent l.tls_active line) l

-- `Metrics::instance().inc(name)`
unfoldable pub count : Bytes → Link → Link
unfolding emit
count name l = emit (counted name) l

unfoldable pub send_multiline_response : List Bytes → Link → Link
unfolding send_line
send_multiline_response [] l = l
send_multiline_response (last ∷ []) l = send_line last l
send_multiline_response (line ∷ next ∷ rest) l =
    send_multiline_response (next ∷ rest) (send_line (line ++ text "-") l)

-- closesocket(sock_); sock_ = INVALID_SOCKET;
unfoldable pub close_socket : Link → Link
unfolding emit
close_socket l = emit closes (record l { is_open = false })

-- What `readLine` finds: a line, the end of the connection, or a line that is too long.
pub data ReadLine : Type 0 where
  line : Bytes → List Recv → ReadLine
  lost too_long : List Recv → ReadLine

abbrev pub max_line : ℕ
max_line = 1024

-- The loop of `readLine`; `errors` is `consecutiveErrors`.
unfoldable pub scan_line : ℕ → Bytes → List Recv → ReadLine
scan_line errors out [] = lost []
scan_line errors out (closed ∷ rest) = lost rest
scan_line errors out (raised ∷ rest) = lost rest
scan_line errors out (failed ∷ rest) =
    let again = scan_line (suc errors) out rest in if ltb 3 (suc errors) then lost rest else again
scan_line errors out (byte c ∷ rest) =
    let skipped = scan_line 0 out rest in
    let kept = scan_line 0 (out ++ c ∷ []) rest in
    if c == b'\r'
    then skipped
    else if c == b'\n'
    then line out rest
    else if ltb max_line (length (out ++ c ∷ []))
    then too_long rest
    else kept

-- The result of `readLine`: the line, if it returns true, and the link after the call.
pub data Received : Type 0 where
  got : Bytes → Link → Received
  ended : Link → Received

unfoldable pub receive : ReadLine → Link → Received
unfolding send_line
receive (line out rest) l = got out (record l { input = rest })
receive (lost rest) l = ended (record l { input = rest })
receive (too_long rest) l = ended (send_line (text "500 Line too long") (record l { input = rest }))

unfoldable pub read_line : Link → Received
unfolding scan_line receive
read_line l = receive (scan_line 0 [] l.input) l
