-- ===== src/Imap/FlagsFile.antt =====
-- What `save` of imap/flags_index.cpp writes, `loadMailbox` reads back.
use email_server_backend.Base.{
  ◌≡◌, ◌≢◌, refl, sym, ap, ◌∙◌, true, false, ◌||◌, List, [], ◌∷◌, ◌++◌, append_assoc, append-nil,
  arith, Bytes, bytes_eq_refl, is_space, All, All-append, All-imp, none, some, Dict, lookup, insert,
  lookup-insert,
}
use email_server_backend.Streams.{join_words, IsWord, words-join_words}
use email_server_backend.Streams.{split, split-append}
use email_server_backend.Imap.FlagsIndex.{
  Flags, Index, has_flag, insert_flag, insert_flags, get_flags, read_flags_line, read_lines,
  load_mailbox, print_lines, save,
}

pub has_flag-append :
    (f : Bytes) (fs gs : Flags) → has_flag f (fs ++ gs) ≡ (has_flag f fs || has_flag f gs)
unfolding has_flag
has_flag-append f [] gs = refl
has_flag-append f (g ∷ fs) gs = ground (arith, has_flag-append f fs gs)

-- No flag is repeated, and none is in the first list.
abbrev pub IsNew : Flags → Flags → Type 0
IsNew fs [] = Unit
IsNew fs (f ∷ more) = (has_flag f fs ≡ false) × IsNew (fs ++ f ∷ []) more

insert_flags-append : (more fs : Flags) → IsNew fs more → insert_flags more fs ≡ fs ++ more
unfolding insert_flags insert_flag
insert_flags-append [] fs h = sym (append-nil fs)
insert_flags-append (f ∷ more) fs (h, hs) =
    rw (h, insert_flag) (insert_flags-append more (fs ++ f ∷ []) hs ∙ append_assoc fs (f ∷ []) more)

-- The entries have ids and flags that are words, no flag is repeated and no id is in the first
-- dictionary or repeated.
abbrev pub IsClean : Dict Flags → Dict Flags → Type 0
IsClean before [] = Unit
IsClean before ((id, flags) ∷ mailbox) =
    IsWord id
    × All IsWord flags
    × IsNew [] flags
    × (lookup id before ≡ none)
    × IsClean (before ++ (id, flags) ∷ []) mailbox

insert-append :
    (id : Bytes) (fs : Flags) (m : Dict Flags)
    → lookup id m ≡ none
    → insert id fs m ≡ m ++ (id, fs) ∷ []
unfolding insert lookup
insert-append id fs [] h = refl
insert-append id fs ((j, gs) ∷ m) h = ground (arith, insert-append id fs m)

word-line : (w : Bytes) → All (λ c. is_space c ≡ false) w → All (λ c. c ≢ b'\n') w
unfolding is_space
word-line w h = All-imp (λ c e. ground arith) w h

join_words-line : (ws : List Bytes) → All IsWord ws → All (λ c. c ≢ b'\n') (join_words ws)
join_words-line [] h = tt
join_words-line (w ∷ ws) ((n, h), hs) = (
  ground arith,
  All-append (λ c. c ≢ b'\n') w (join_words ws) (word-line w h) (join_words-line ws hs),
)

read_flags_line-join_words :
    (id : Bytes) (flags : Flags) (before : Dict Flags)
    → IsWord id
    → All IsWord flags
    → IsNew [] flags
    → lookup id before ≡ none
    → read_flags_line (id ++ join_words flags) before ≡ before ++ (id, flags) ∷ []
unfolding read_flags_line
read_flags_line-join_words id flags before w ws new fresh =
    rw (words-join_words id flags w ws, read_flags_line)
      (ap (λ fs. insert id fs before) (insert_flags-append flags [] new)
        ∙ insert-append id flags before fresh)

read_lines-print_lines :
    (mailbox before : Dict Flags)
    → IsClean before mailbox
    → read_lines (split b'\n' (print_lines mailbox)) before ≡ before ++ mailbox
unfolding read_lines print_lines split
read_lines-print_lines [] before h = sym (append-nil before)
read_lines-print_lines ((id, flags) ∷ mailbox) before (w, ws, new, fresh, clean) =
    let rest = print_lines mailbox in
    ap (λ t. read_lines (split b'\n' t) before)
      (sym (append_assoc id (join_words flags) (b'\n' ∷ rest)))
    ∙ ap (λ ls. read_lines ls before)
        (split-append b'\n' (id ++ join_words flags) rest (
          All-append (λ c. c ≢ b'\n') id (join_words flags) (word-line id w.1)
            (join_words-line flags ws)))
    ∙ ap (read_lines (split b'\n' rest)) (read_flags_line-join_words id flags before w ws new fresh)
    ∙ read_lines-print_lines mailbox (before ++ (id, flags) ∷ []) clean
    ∙ append_assoc before ((id, flags) ∷ []) mailbox

-- An index whose entries are words, each once, is read back as it was saved, where the file can be
-- opened: after a save, any index that loads the mailbox has the same flags for every message.
pub load_mailbox-save :
    (user : Bytes) (index other : Index) (mailbox : Dict Flags) (files : Dict Bytes) (id : Bytes)
    → lookup user index ≡ some mailbox
    → IsClean [] mailbox
    → get_flags user id (load_mailbox (save true user index files) user other)
      ≡ get_flags user id index
unfolding get_flags load_mailbox save
load_mailbox-save user index other mailbox files id found clean = rw (
  found,
  lookup-insert user user (print_lines mailbox) files,
  bytes_eq_refl user,
  read_lines-print_lines mailbox [] clean,
  lookup-insert user user mailbox other,
  bytes_eq_refl user,
  get_flags,
  load_mailbox,
  save,
)
