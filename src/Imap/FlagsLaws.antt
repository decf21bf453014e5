-- ===== src/Imap/FlagsLaws.antt =====
-- `addFlag` and `getFlags` of imap/flags_index.cpp.
use email_server_backend.Base.{
  ◌≡◌, refl, ◌&&◌, ◌||◌, [], ◌∷◌, arith, Bytes, bytes_eq, bytes_eq_iff, if◌then◌else◌, none, lookup,
  insert, lookup-insert,
}
use email_server_backend.Imap.FlagsIndex.{
  Flags, Index, has_flag, insert_flag, or_empty, get_flags, add_flag,
}
use email_server_backend.Imap.FlagsFile.{has_flag-append}

has_flag-insert_flag :
    (f g : Bytes) (fs : Flags) → has_flag g (insert_flag f fs) ≡ (bytes_eq f g || has_flag g fs)
unfolding insert_flag has_flag
has_flag-insert_flag f g fs = ground (arith, bytes_eq_iff f g, has_flag-append g fs (f ∷ []))

lookup_nil : (k : Bytes) → lookup {V = Flags} k [] ≡ none
unfolding lookup
lookup_nil k = refl

get_flags-add_flag :
    (user id f user' id' : Bytes) (index : Index)
    → get_flags user' id' (add_flag user id f index) ≡ (
        if bytes_eq user user' && bytes_eq id id'
        then insert_flag f (get_flags user id index)
        else get_flags user' id' index)
unfolding get_flags add_flag
get_flags-add_flag user id f user' id' index =
    let mailbox = or_empty (lookup user index) in
    let flags = insert_flag f (or_empty (lookup id mailbox)) in
    ground (
      arith,
      lookup-insert user user' (insert id flags mailbox) index,
      lookup-insert id id' flags mailbox,
      bytes_eq_iff user user',
      bytes_eq_iff id id',
      lookup_nil id,
      lookup_nil id',
    )

-- After `addFlag` a message has the flags that it had before, and no other message of any user has
-- changed its flags; the message of this user has the new flag as well.
pub has_flag-add_flag :
    (user id f user' id' g : Bytes) (index : Index)
    → has_flag g (get_flags user' id' (add_flag user id f index)) ≡ (
        bytes_eq user user' && bytes_eq id id' && bytes_eq f g
        || has_flag g (get_flags user' id' index))
has_flag-add_flag user id f user' id' g index = ground (
  arith,
  get_flags-add_flag user id f user' id' index,
  has_flag-insert_flag f g (get_flags user id index),
  bytes_eq_iff user user',
  bytes_eq_iff id id',
)
