-- ===== src/Imap/FlagsIndex.antt =====
-- `FlagsIndex` of imap/flags_index.cpp. The flags of a message are a list without repetitions; the
-- file of a user's mailbox is found by the user's name, and an absent file cannot be opened.
use email_server_backend.Base.{
  Bool, false, ◌||◌, List, [], ◌∷◌, ◌++◌, Bytes, bytes_eq, if◌then◌else◌, Option, none, some, Dict,
  lookup, insert,
}
use email_server_backend.Streams.{words, join_words}
use email_server_backend.Streams.{split}

abbrev pub Flags : Type 0
Flags = List Bytes

-- The members: for each user and message id, its flags.
abbrev pub Index : Type 0
Index = Dict (Dict Flags)

unfoldable pub has_flag : Bytes → Flags → Bool
has_flag f [] = false
has_flag f (g ∷ fs) = bytes_eq g f || has_flag f fs

-- flags.insert(flag)
unfoldable pub insert_flag : Bytes → Flags → Flags
insert_flag f fs = if has_flag f fs then fs else fs ++ f ∷ []

unfoldable pub insert_flags : List Bytes → Flags → Flags
insert_flags [] fs = fs
insert_flags (f ∷ more) fs = insert_flags more (insert_flag f fs)

abbrev pub or_empty {ℓ} : {A : Type ℓ} → Option (List A) → List A
or_empty none = []
or_empty (some xs) = xs

unfoldable pub get_flags : Bytes → Bytes → Index → Flags
get_flags user id index = elim (lookup user index) [
  | none ↦ []
  | some mailbox ↦ or_empty (lookup id mailbox)
]

unfoldable pub add_flag : Bytes → Bytes → Bytes → Index → Index
add_flag user id flag index =
    let mailbox = or_empty (lookup user index) in
    insert user (insert id (insert_flag flag (or_empty (lookup id mailbox))) mailbox) index

-- One line of the file, as it is read.
unfoldable pub read_flags_line : Bytes → Dict Flags → Dict Flags
read_flags_line line mailbox = elim (words line) [
  | [] ↦ mailbox
  | id ∷ flags ↦ insert id (insert_flags flags []) mailbox
]

unfoldable pub read_lines : List Bytes → Dict Flags → Dict Flags
read_lines [] mailbox = mailbox
read_lines (line ∷ lines) mailbox = read_lines lines (read_flags_line line mailbox)

-- `files` is the content of the file of each user that has one.
unfoldable pub load_mailbox : Dict Bytes → Bytes → Index → Index
load_mailbox files user index = elim (lookup user files) [
  | none ↦ insert user [] index
  | some content ↦ insert user (read_lines (split b'\n' content) []) index
]

-- The lines that `save` writes, in the order of the hash map.
unfoldable pub print_lines : Dict Flags → Bytes
print_lines [] = []
print_lines ((id, flags) ∷ mailbox) = id ++ (join_words flags ++ b'\n' ∷ print_lines mailbox)

-- `opens` is whether the file can be opened for writing, which empties it.
unfoldable pub save : Bool → Bytes → Index → Dict Bytes → Dict Bytes
save opens user index files =
    if opens
    then elim (lookup user index) [
      | none ↦ insert user [] files
      | some mailbox ↦ insert user (print_lines mailbox) files
    ]
    else files
