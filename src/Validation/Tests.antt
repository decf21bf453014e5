-- ===== src/Validation/Tests.antt =====
-- Inputs of core/input_validator.cpp.
use email_server_backend.Base.{
  ◌≡◌, refl, true, false, not, ◌&&◌, ◌||◌, starts_with, [], Bytes, text, bytes_eq, is_empty, find,
  Option, some,
}
use email_server_backend.Validation.InputValidator.{
  is_alnum, is_name_char, all_name_chars, is_valid_username, contains_path_traversal, is_valid_path,
  replaces, append_path, drive, is_letter, with_slashes, with_preferred, sanitize_path,
  keep_name_chars, sanitize_username, is_print, is_dangerous, sanitize_string,
}
use email_server_backend.Validation.PathLaws.{is_valid_path_iff}

-- A name that leads to the parent directory is valid.
dots_are_valid : is_valid_username (text "..") ≡ true
unfolding text is_valid_username is_empty all_name_chars is_name_char is_alnum
dots_are_valid = refl

sanitized : sanitize_username (text "a<b>/../c d") ≡ text "ab..cd"
unfolding text sanitize_username keep_name_chars is_name_char is_alnum
sanitized = refl

markup : sanitize_string true (text "<a b> & 'c'") ≡ text "a b  c"
unfolding text sanitize_string is_print is_dangerous
markup = refl

abbrev same : Bytes → Option Bytes
same p = some p

is_valid_path_iff_example : is_valid_path same (text "D:x") (text "C:/data") ≡ (
    not (is_empty (text "D:x"))
    && (not (contains_path_traversal (text "D:x"))
        && (not (replaces (text "C:/data") (text "D:x"))
            || starts_with (with_slashes (text "C:/data")) (with_slashes (text "D:x")))))
is_valid_path_iff_example = is_valid_path_iff same (text "D:x") (text "C:/data")

taken_apart : sanitize_path same (text "/a/..../b\\c") (text "C:/data") ≡ []
unfolding text sanitize_path is_valid_path is_empty find contains_path_traversal
taken_apart = refl

-- A path on another drive is refused, and one in a directory whose name only begins like that of
-- the base directory is valid.
other_drive : is_valid_path same (text "D:x") (text "C:/data") ≡ false
unfolding text is_valid_path is_empty find contains_path_traversal append_path replaces drive
    is_letter with_slashes with_preferred starts_with bytes_eq
other_drive = refl

sibling_directory : is_valid_path same (text "C:/database/x") (text "C:/data") ≡ true
unfolding text is_valid_path is_empty find contains_path_traversal append_path replaces drive
    is_letter with_slashes with_preferred starts_with
sibling_directory = refl
