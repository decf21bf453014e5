-- ===== src/Imap/Tests.antt =====
-- The flags index on a small mailbox, and its theorems there.
use email_server_backend.Base.{
  ◌≡◌, refl, true, [], ◌∷◌, arith, Bytes, text, bytes_eq, is_empty, is_space, some, Dict, lookup,
}
use email_server_backend.Imap.FlagsIndex.{Flags, Index, has_flag, get_flags, load_mailbox, save}
use email_server_backend.Imap.FlagsFile.{IsClean, load_mailbox-save}

abbrev user : Bytes
user = text "bob"

abbrev seen : Bytes
seen = text "Seen"

abbrev mailbox : Dict Flags
mailbox = (text "1", seen ∷ text "Flagged" ∷ []) ∷ (text "2", []) ∷ []

abbrev index : Index
index = (user, mailbox) ∷ []

index_has_mailbox : lookup user index ≡ some mailbox
unfolding lookup text bytes_eq
index_has_mailbox = refl

mailbox-IsClean : IsClean [] mailbox
unfolding lookup text bytes_eq is_empty is_space has_flag
mailbox-IsClean = ground arith

load_mailbox-save_example :
    get_flags user (text "1") (load_mailbox (save true user index []) user [])
    ≡ get_flags user (text "1") index
load_mailbox-save_example =
    load_mailbox-save user index [] mailbox [] (text "1") index_has_mailbox mailbox-IsClean
