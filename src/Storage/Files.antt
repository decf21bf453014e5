-- ===== src/Storage/Files.antt =====
-- A file system as storage/mail_store.cpp uses it: the content of each file by its path, and
-- which of the system's operations succeed. Paths are written with '/'.
use email_server_backend.Base.{
  Bool, true, false, ◌||◌, ◌++◌, Bytes, text, is_empty, starts_with, ends_with, if◌then◌else◌,
  Option, none, some, Dict, lookup, insert, erase,
}

abbrev pub FileSystem : Type 0
FileSystem = Dict Bytes

pub record System : Type 0 where
  pub directory_ok : Bool
  pub create_ok : Bool
  pub write_ok : Bool
  pub flush_ok : Bool
  pub replace_ok : Bool
  pub rename_ok : Bool
  pub remove_ok : Bytes → Bool

unfoldable pub exists : Bytes → FileSystem → Bool
exists p files = elim (lookup p files) [ none ↦ false | some content ↦ true ]

-- fs::rename, which throws where the file is missing or the system refuses.
unfoldable pub rename : System → Bytes → Bytes → FileSystem → Option FileSystem
rename sys p q files = elim (lookup p files) [
  | none ↦ none
  | some content ↦ if sys.rename_ok then some (insert q content (erase p files)) else none
]

-- The operator / of fs::path.
abbrev pub with_separator : Bytes → Bytes
with_separator a = if is_empty a || ends_with (text "/") a then a else a ++ text "/"

unfoldable pub join : Bytes → Bytes → Bytes
join a b = if starts_with (text "/") b then b else with_separator a ++ b
