-- ===== src/Imap/SessionTests.antt =====
-- Sessions of imap/imap_session.cpp with a peer that logs in.
use email_server_backend.Base.{
  ◌≡◌, refl, true, [], ◌++◌, arith, text, bytes_eq, is_empty, is_space, upper, to_upper, some,
}
use email_server_backend.Smtp.Dispatch.{skip_spaces, take_word}
use email_server_backend.Validation.InputValidator.{
  is_valid_username, all_name_chars, is_name_char, is_alnum,
}
use email_server_backend.Imap.Session.{Env, Session, send, handle_command}
use email_server_backend.Imap.Server.{new_session}
use email_server_backend.Imap.Commands.{login_line, handle_command-login}

abbrev world : Env
unfolding text bytes_eq
world = record {
  domain = text "b.org";
  handshake = λ n. true;
  validate = λ user pass. some (bytes_eq pass (text "pw"));
}

abbrev secured : Session
unfolding new_session
secured = new_session true []

handle_command-login_example :
    handle_command world (login_line (text "a1") (text "login") (text "eve") (text "pw")) secured
    ≡ some (
        send
          (text "a1" ++ text " OK LOGIN completed")
          (record secured { authed = true; username = text "eve" }))
unfolding text is_empty is_space upper to_upper bytes_eq is_valid_username all_name_chars
    is_name_char is_alnum secured
handle_command-login_example =
    handle_command-login world (text "a1") (text "login") (text "eve") (text "pw") true secured
      (ground arith) (ground arith) refl refl refl refl (ground arith) (ground arith) refl

-- A password with a space is cut at the space.
cut_at_space : take_word (skip_spaces (text "\"my word\"")) ≡ (text "\"my", text " word\"")
unfolding text skip_spaces take_word is_space
cut_at_space = refl
