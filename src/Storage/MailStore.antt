-- ===== src/Storage/MailStore.antt =====
-- `MailStore` of storage/mail_store.cpp and `RetroManager` of retro/retro_manager.cpp. The root
-- directory is an argument, and so is the identifier that `generateId` makes of the clock.
use email_server_backend.Base.{
  Bool, true, false, ◌&&◌, not, List, [], ◌∷◌, ◌++◌, Bytes, text, is_empty, starts_with, ends_with,
  if◌then◌else◌, none, some, insert, erase,
}
use email_server_backend.Smtp.Link.{StoredMessage}
use email_server_backend.Storage.Files.{FileSystem, System, exists, rename, with_separator, join}

unfoldable pub make_user_inbox_dir : Bytes → Bytes → Bytes
make_user_inbox_dir root user = join (join root user) (text "INBOX")

unfoldable pub make_message_path : Bytes → Bytes → Bytes → Bytes
unfolding make_user_inbox_dir
make_message_path root user id = join (make_user_inbox_dir root user) (id ++ text ".eml")

unfoldable pub make_quarantine_path : Bytes → Bytes → Bytes → Bytes
make_quarantine_path root user id =
    join (join (join root user) (text "Quarantine")) (id ++ text ".eml")

abbrev pub temp_path : Bytes → Bytes
temp_path path = path ++ text ".tmp"

-- A regular file below the root with the extension ".tmp".
unfoldable pub is_temp_file : Bytes → Bytes → Bool
is_temp_file root path =
    starts_with (with_separator root) path
    && (ends_with (text ".tmp") path && not (ends_with (text "/.tmp") path))

-- A removal that fails is skipped.
unfoldable pub recover_temp_files : System → Bytes → FileSystem → FileSystem
recover_temp_files sys root [] = []
recover_temp_files sys root ((path, content) ∷ files) =
    let rest = recover_temp_files sys root files in
    if is_temp_file root path && sys.remove_ok path then rest else (path, content) ∷ rest

-- Whether a write succeeded, the files after it, and those that it went through before, which a
-- crash may leave behind.
pub record Written : Type 0 where
  pub ok : Bool
  pub files : FileSystem
  pub passed : List FileSystem

unfoldable pub write_atomically : System → Bytes → Bytes → FileSystem → Written
write_atomically sys path content files =
    let t = temp_path path in
    let created = insert t [] files in
    let filled = insert t content files in
    let replaced = insert path content (erase t filled) in
    if not sys.create_ok
    then record { ok = false; files = files; passed = [] }
    else if not sys.write_ok
    then record { ok = false; files = erase t created; passed = created ∷ files ∷ [] }
    else if not (sys.flush_ok && sys.replace_ok)
    then record { ok = false; files = erase t filled; passed = filled ∷ created ∷ files ∷ [] }
    else record {
      ok = exists path replaced;
      files = replaced;
      passed = filled ∷ created ∷ files ∷ [];
    }

unfoldable pub to_lines : List Bytes → Bytes
to_lines [] = []
to_lines (rcpt ∷ rcpts) = text "To: " ++ (rcpt ++ (text "\r\n" ++ to_lines rcpts))

unfoldable pub message_text : StoredMessage → Bytes → Bytes
message_text msg id =
    text "From: "
    ++ (msg.from
        ++ (text "\r\n"
            ++ (to_lines msg.recipients
                ++ (text "Message-ID: <" ++ (id ++ (text "@local>\r\n\r\n" ++ msg.raw_data))))))

-- The id that `store` returns, empty where it fails, and the write that it made.
pub record Stored : Type 0 where
  pub id : Bytes
  pub files : FileSystem
  pub passed : List FileSystem

abbrev pub given_id : StoredMessage → Bytes → Bytes
given_id msg generated = if is_empty msg.id then generated else msg.id

unfoldable pub store : System → Bytes → Bytes → StoredMessage → FileSystem → Stored
store sys root generated msg files =
    let id = given_id msg generated in
    let w =
      write_atomically sys (make_message_path root msg.mailbox_user id) (message_text msg id)
        files in
    if is_empty msg.mailbox_user
    then record { id = []; files = files; passed = [] }
    else if not sys.directory_ok
    then record { id = []; files = files; passed = [] }
    else if w.ok
    then record { id = id; files = w.files; passed = w.passed }
    else record { id = []; files = w.files; passed = w.passed }

unfoldable pub move_to_quarantine : System → Bytes → Bytes → Bytes → FileSystem → Bool × FileSystem
move_to_quarantine sys root user id files =
    if sys.directory_ok
    then elim (rename sys (make_message_path root user id) (make_quarantine_path root user id)
        files) [ none ↦ (false, files) | some files' ↦ (true, files') ]
    else (false, files)

-- fs::remove does not throw where there is no such file.
unfoldable pub delete_message : System → Bytes → Bytes → Bytes → FileSystem → Bool × FileSystem
delete_message sys root user id files =
    let p = make_message_path root user id in
    if sys.remove_ok p then (true, erase p files) else (false, files)

-- enum class RetroAction, and `RetroManager::execute`.
pub data RetroAction : Type 0 where
  quarantine delete : RetroAction

pub record RetroEvent : Type 0 where
  pub mailbox_user : Bytes
  pub message_id : Bytes
  pub reason : Bytes
  pub action : RetroAction

unfoldable pub execute : System → Bytes → RetroEvent → FileSystem → FileSystem
execute sys root e files = elim e.action [
  | RetroAction.quarantine ↦ (move_to_quarantine sys root e.mailbox_user e.message_id files).1
  | RetroAction.delete ↦ (delete_message sys root e.mailbox_user e.message_id files).1
]
