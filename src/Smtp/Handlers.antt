-- ===== src/Smtp/Handlers.antt =====
-- The command handlers of smtp/smtp_session.cpp, but for DATA.
use email_server_backend.Base.{
  Bool, true, false, List, [], ◌∷◌, ◌++◌, Bytes, text, to_string, if◌then◌else◌,
}
use email_server_backend.Smtp.Link.{send_line, count, close_socket, send_multiline_response}
use email_server_backend.Smtp.Session.{
  Session, Env, Handshake, no_ssl, refused, insecure, crashed, secured, AuthOutcome, answered,
  threw,
}

-- `sendLine` on the session's link.
unfoldable pub reply : Bytes → Session → Session
unfolding send_line
reply line s = record s { link = send_line line s.link }

abbrev capabilities : Env → Bool → List Bytes
capabilities env true = text "AUTH LOGIN PLAIN" ∷ text "HELP" ∷ []
capabilities env false = text "STARTTLS" ∷ text "HELP" ∷ []

unfoldable pub ehlo_lines : Env → Bool → List Bytes
unfolding to_string
ehlo_lines env tls =
    env.domain
    ∷ text "PIPELINING"
    ∷ (text "SIZE " ++ to_string env.max_message_size)
    ∷ text "8BITMIME"
    ∷ text "SMTPUTF8"
    ∷ capabilities env tls

unfoldable pub handle_ehlo : Env → Bytes → Session → Session
unfolding ehlo_lines send_multiline_response
handle_ehlo env arg s = record s {
  link = send_multiline_response (ehlo_lines env s.tls_active) s.link;
  helo_domain = arg;
}

unfoldable pub handle_helo : Env → Bytes → Session → Session
unfolding reply
handle_helo env arg s = reply (text "250 " ++ env.domain) (record s { helo_domain = arg })

-- sendLine(why); closesocket(sock_); sock_ = INVALID_SOCKET;
unfoldable pub hang_up : Bytes → Session → Session
unfolding send_line close_socket
hang_up why s = record s { link = close_socket (send_line why s.link) }

unfoldable pub finish_handshake : Handshake → Session → Session
unfolding hang_up count
finish_handshake no_ssl s = hang_up (text "454 TLS negotiation failed") s
finish_handshake refused s = hang_up (text "454 TLS negotiation failed") s
finish_handshake insecure s =
    hang_up (text "454 TLS security requirements not met")
      (record s { link = count (text "smtp_tls_validation_failures_total") s.link })
finish_handshake crashed s =
    hang_up (text "454 TLS negotiation failed")
      (record s { link = count (text "smtp_tls_handshake_errors_total") s.link })
finish_handshake secured s = record s {
  link = count (text "smtp_tls_handshakes_total") (record link { tls_active = true });
  authed = false;
  username = [];
  helo_domain = [];
  sender = [];
  recipients = [];
}
  where
    open s use {link}

unfoldable pub handle_starttls : Env → Session → Session
unfolding reply finish_handshake
handle_starttls env s =
    if s.tls_active
    then reply (text "454 TLS already active") s
    else finish_handshake env.handshake (reply (text "220 Ready to start TLS") s)

unfoldable pub finish_auth : AuthOutcome → Session → Session
unfolding reply count
finish_auth (answered true user) s = reply (text "235 Authentication successful") (record s {
  link = count (text "smtp_auth_successes_total") s.link;
  authed = true;
  username = user;
})
finish_auth (answered false user) s =
    reply (text "535 Authentication failed")
      (record s { link = count (text "smtp_auth_failures_total") s.link; username = user })
finish_auth threw s =
    reply (text "451 Internal error - authentication failed")
      (record s { link = count (text "smtp_auth_errors_total") s.link })

unfoldable pub handle_auth : Env → Bytes → Session → Session
unfolding reply finish_auth
handle_auth env args s =
    if s.authed
    then reply (text "503 Already authenticated") s
    else finish_auth (env.authenticate_smtp args s.username) s

unfoldable pub handle_mail_from : Bytes → Session → Session
unfolding reply
handle_mail_from args s = reply (text "250 OK") (record s { sender = args; recipients = [] })

unfoldable pub handle_rcpt_to : Bytes → Session → Session
unfolding reply
handle_rcpt_to args s = reply (text "250 OK") (record s { recipients = s.recipients ++ args ∷ [] })

unfoldable pub handle_quit : Session → Session
unfolding hang_up
handle_quit s = hang_up (text "221 Bye") s
