-- ===== src/Storage/Names.antt =====
-- The names and the paths of messages in storage/mail_store.cpp.
use email_server_backend.Base.{
  ◌≡◌, ◌≢◌, refl, ◌∙◌, false, [], ◌∷◌, ◌++◌, append_assoc, All-append, arith, Bytes, text, bytes_eq,
  is_empty, starts_with, ends_with, All,
}
use email_server_backend.Storage.Files.{with_separator, join}
use email_server_backend.Storage.MailStore.{make_message_path, make_quarantine_path}

-- The name of a directory or of a file: not empty, and no slash.
abbrev pub IsName : Bytes → Type 0
IsName s = (is_empty s ≡ false) × All (λ c. c ≢ b'/') s

-- The path of a message below the root.
abbrev pub below_root : Bytes → Bytes → Bytes → Bytes → Bytes
below_root root user folder file = with_separator root ++ (user ++ b'/' ∷ (folder ++ b'/' ∷ file))

ends_with-name : (a s : Bytes) → IsName s → ends_with (text "/") (a ++ s) ≡ false
unfolding ends_with text is_empty bytes_eq
ends_with-name [] [] h = ground arith
ends_with-name [] (c ∷ []) h = ground arith
ends_with-name [] (c ∷ d ∷ s) (n, (m, h)) = ground (arith, ends_with-name [] (d ∷ s) (refl, h))
ends_with-name (b ∷ []) [] h = ground arith
ends_with-name (b ∷ []) (c ∷ s) h = ground (arith, ends_with-name [] (c ∷ s) h)
ends_with-name (b ∷ d ∷ a) s h = ground (arith, ends_with-name (d ∷ a) s h)

is_empty-append : (a s : Bytes) → is_empty s ≡ false → is_empty (a ++ s) ≡ false
unfolding is_empty
is_empty-append [] s h = h
is_empty-append (c ∷ a) s h = refl

join-name : (a s : Bytes) → IsName s → join a s ≡ with_separator a ++ s
unfolding join starts_with text is_empty
join-name a [] h = ground arith
join-name a (c ∷ s) h = ground arith

with_separator-name : (a s : Bytes) → IsName s → with_separator (a ++ s) ≡ a ++ (s ++ b'/' ∷ [])
unfolding text
with_separator-name a s h =
    rw (is_empty-append a s h.0, ends_with-name a s h) (append_assoc a s (b'/' ∷ []))

join-join-join :
    (root user folder file : Bytes)
    → IsName user
    → IsName folder
    → IsName file
    → join (join (join root user) folder) file ≡ below_root root user folder file
join-join-join root user folder file u f n =
    rw
      (
        join-name root user u,
        join-name (with_separator root ++ user) folder f,
        with_separator-name (with_separator root) user u,
      )
      (join-name ((with_separator root ++ (user ++ b'/' ∷ [])) ++ folder) file n
        ∙ rw (with_separator-name (with_separator root ++ (user ++ b'/' ∷ [])) folder f)
            (simp append_assoc))

pub inbox_IsName : IsName (text "INBOX")
unfolding text is_empty
inbox_IsName = ground arith

pub quarantine_IsName : IsName (text "Quarantine")
unfolding text is_empty
quarantine_IsName = ground arith

file_IsName : (id : Bytes) → IsName id → IsName (id ++ text ".eml")
unfolding text is_empty
file_IsName id (n, h) = (
  is_empty-append id (text ".eml") refl,
  All-append (λ c. c ≢ b'/') id (text ".eml") h (ground arith),
)

pub make_message_path_lem :
    (root user id : Bytes)
    → IsName user
    → IsName id
    → make_message_path root user id ≡ below_root root user (text "INBOX") (id ++ text ".eml")
unfolding make_message_path
make_message_path_lem root user id u i =
    join-join-join root user (text "INBOX") (id ++ text ".eml") u inbox_IsName (file_IsName id i)

pub make_quarantine_path_lem :
    (root user id : Bytes)
    → IsName user
    → IsName id
    → make_quarantine_path root user id
      ≡ below_root root user (text "Quarantine") (id ++ text ".eml")
unfolding make_quarantine_path
make_quarantine_path_lem root user id u i =
    join-join-join root user (text "Quarantine") (id ++ text ".eml") u quarantine_IsName
      (file_IsName id i)
