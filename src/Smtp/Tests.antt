-- ===== src/Smtp/Tests.antt =====
-- Tests of the session on concrete input, and its theorems at concrete sessions.
use email_server_backend.Base.{
  ℕ, ◌≤◌, ◌≡◌, refl, ◌⊎◌, inr, true, false, List, [], ◌∷◌, arith, Bytes, text, length, Option, none,
  some, upper, is_space, bytes_eq, is_empty, map, decimal,
}
use email_server_backend.Smtp.Link.{byte, closed, read_line, got, max_line}
use email_server_backend.Smtp.Session.{Session, SmtpState, Env, secured}
use email_server_backend.Smtp.Message.{handle_data, collect}
use email_server_backend.Smtp.Handlers.{handle_starttls}
use email_server_backend.Smtp.Dispatch.{handle_command, split_command}
use email_server_backend.Smtp.Lines.{crlf, read_line-crlf, read_line-ReceivedInv}
use email_server_backend.Smtp.Transfer.{wire, lines_then}
use email_server_backend.Smtp.Delivery.{delivery_trace, handle_data-wire}
use email_server_backend.Smtp.Trace.{stored_in, closes_in, releases_in}
use email_server_backend.Smtp.Policy.{IsTrusted, handle_command-IsTrusted}
use email_server_backend.Smtp.Lifetime.{run-start_session}
use email_server_backend.Smtp.Run.{run, start_session, serve}
use email_server_backend.Smtp.Samples.{open_env, typed, sample, mail_script}

abbrev env : Env
env = open_env secured

abbrev script_run : Option Session
script_run = run env true (start_session env false (text "ip") (typed mail_script))

-- EHLO, AUTH, MAIL, RCPT, DATA and QUIT: one message is stored, with its leading dot restored.
mail_script_stores :
    (elim script_run [ none ↦ [] | some s ↦ map (λ msg. msg.raw_data) (stored_in s.trace) ])
    ≡ text ".hi\n" ∷ []
unfolding run serve start_session handle_command handle_data handle_starttls collect text upper
    split_command is_space bytes_eq is_empty read_line decimal
mail_script_stores = refl

split_mail : split_command (text "  mail FROM:<a> ") ≡ (text "mail", text "FROM:<a> ")
unfolding split_command text is_space
split_mail = refl

abbrev two_lines : List Bytes
two_lines = (b'h' ∷ b'i' ∷ []) ∷ (b'.' ∷ []) ∷ []

-- A session in RCPT_TO with one recipient, that reads `input`.
abbrev addressed : List Bytes → Session
addressed lines = record sample {
  link = record { tls_active = false; is_open = true; input = wire lines []; trace = [] };
  state = SmtpState.rcpt_to;
  authed = true;
  recipients = text "b" ∷ [];
}

abbrev cut_off : Session
cut_off = record sample {
  link = record { tls_active = false; is_open = true; input = lines_then two_lines []; trace = [] };
  state = SmtpState.rcpt_to;
  recipients = text "b" ∷ [];
}

read_line-ReceivedInv_example : length {A = ℕ} (b'h' ∷ []) ≤ max_line
unfolding read_line
read_line-ReceivedInv_example =
    (read_line-ReceivedInv
      (record { tls_active = false; is_open = true; input = byte b'h' ∷ crlf []; trace = [] })).1

read_line-crlf_example :
    read_line (record {
      tls_active = false;
      is_open = true;
      input = byte b'h' ∷ crlf (closed ∷ []);
      trace = [];
    })
    ≡ got
        (b'h' ∷ [])
        (record { tls_active = false; is_open = true; input = closed ∷ []; trace = [] })
read_line-crlf_example =
    read_line-crlf (record { tls_active = false; is_open = true; input = []; trace = [] })
      (b'h' ∷ []) (closed ∷ []) ((omega arith, omega arith), tt) (omega arith)

handle_data-wire_example :
    ((handle_data env (addressed two_lines)).input ≡ [])
    × ((handle_data env (addressed two_lines)).trace
        ≡ delivery_trace (addressed two_lines) (text "b") (text "hi\n.\n"))
unfolding text is_empty
handle_data-wire_example =
    handle_data-wire env (addressed two_lines) (text "b") [] two_lines (text "42") refl
      (omega arith) (omega arith) refl refl [] refl

abbrev over_tls : Session
over_tls = record sample {
  link = record { tls_active = true; is_open = true; input = wire two_lines []; trace = [] };
  state = SmtpState.rcpt_to;
  authed = true;
  recipients = text "b" ∷ [];
}

handle_command-IsTrusted_example :
    let s' = handle_command env (text "DATA") over_tls in
    (s'.tls_active ≡ true)
    × IsTrusted s'
    × ((stored_in s'.trace ≡ []) ⊎ ((true ≡ true) × (over_tls.state ≡ SmtpState.rcpt_to)))
handle_command-IsTrusted_example =
    handle_command-IsTrusted env (text "DATA") over_tls refl (inr refl)

abbrev strict_env : Env
strict_env = record env { tls_required = true }

abbrev in_mail_from : Session
in_mail_from = record (addressed two_lines) { state = SmtpState.mail_from; recipients = [] }

run-start_session_example :
    (s : Session) × (run env true (start_session env false (text "ip") (typed mail_script))
      ≡ some s)
    × (closes_in s.trace ≡ 1)
    × (releases_in s.trace ≡ 1)
run-start_session_example = run-start_session env false true (text "ip") (typed mail_script)
