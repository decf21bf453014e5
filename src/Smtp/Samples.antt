-- ===== src/Smtp/Samples.antt =====
-- Concrete sessions for the tests and the witnesses: an environment that accepts everything, and
-- input built from command lines.
use email_server_backend.Base.{true, false, List, [], ◌∷◌, ◌++◌, text, String, map}
use email_server_backend.Smtp.Link.{Recv, byte}
use email_server_backend.Smtp.Session.{Session, Env, Handshake, secured, answered, stored_as}
use email_server_backend.Smtp.Run.{start_session}

abbrev pub open_env : Handshake → Env
open_env h = record {
  domain = text "mx";
  max_message_size = 100;
  smtp_timeout = 300;
  data_timeout = 600;
  tls_required = false;
  start_tls_required = false;
  now = λ n. n;
  handshake = h;
  authenticate_smtp = λ args user. answered true (text "bob");
  store = λ trace msg. stored_as (text "42");
}

abbrev pub typed : List String → List Recv
typed [] = []
typed (line ∷ lines) = map byte (text line ++ (b'\r' ∷ b'\n' ∷ [])) ++ typed lines

abbrev pub sample : Session
sample = start_session (open_env secured) false (text "1.2.3.4") []

abbrev pub mail_script : List String
mail_script =
    "EHLO c" ∷ "AUTH PLAIN x" ∷ "MAIL FROM:<a>" ∷ "RCPT TO:<b>" ∷ "DATA" ∷ "..hi" ∷ "." ∷ "QUIT"
    ∷ []
