-- ===== src/Storage/Paths.antt =====
-- The paths of messages in storage/mail_store.cpp: which are equal.
use email_server_backend.Base.{
  ℕ, ◌≡◌, ◌≢◌, refl, sym, ap, ◌∙◌, true, false, ◌&&◌, [], ◌∷◌, ◌++◌, length, length-append, arith,
  Bytes, text, bytes_eq, bytes_eq_iff, bytes_eq-false, is_empty, ends_with, All, inl, inr,
  Bool-cases,
}
use email_server_backend.Storage.Files.{with_separator}
use email_server_backend.Storage.MailStore.{
  make_message_path, make_quarantine_path, temp_path, is_temp_file,
}
use email_server_backend.Storage.Names.{
  IsName, below_root, inbox_IsName, quarantine_IsName, make_message_path_lem,
  make_quarantine_path_lem,
}

cancel_left : (a x y : Bytes) → a ++ x ≡ a ++ y → x ≡ y
cancel_left [] x y e = e
cancel_left (c ∷ a) x y e = cancel_left a x y (ground arith)

cancel_right : (x y s : Bytes) → x ++ s ≡ y ++ s → x ≡ y
cancel_right [] [] s e = refl
cancel_right [] (c ∷ y) s e = absurd (omega (arith, ap length e, length-append y s))
cancel_right (b ∷ x) [] s e = absurd (omega (arith, ap length e, length-append x s))
cancel_right (b ∷ x) (c ∷ y) s e = ground (arith, cancel_right x y s)

cancel_name :
    (s t x y : Bytes)
    → All (λ c. c ≢ b'/') s
    → All (λ c. c ≢ b'/') t
    → s ++ b'/' ∷ x ≡ t ++ b'/' ∷ y
    → (s ≡ t) × (x ≡ y)
cancel_name [] [] x y h k e = ground arith
cancel_name [] (c ∷ t) x y h k e = ground arith
cancel_name (b ∷ s) [] x y h k e = ground arith
cancel_name (b ∷ s) (c ∷ t) x y h k e = ground (arith, cancel_name s t x y)

last : ℕ → Bytes → ℕ
last d [] = d
last d (c ∷ s) = last c s

last-append : (d : ℕ) (x s : Bytes) → last d (x ++ s) ≡ last (last d x) s
unfolding last
last-append d [] s = refl
last-append d (b ∷ x) s = last-append b x s

-- Message files end in 'l', temporary files in 'p'.
last-below_root :
    (root user folder id : Bytes) → last 0 (below_root root user folder (id ++ text ".eml")) ≡ b'l'
unfolding last text
last-below_root root user folder id = simp last-append refl

last-temp_path : (path : Bytes) → last 0 (temp_path path) ≡ b'p'
unfolding last text
last-temp_path path = simp last-append refl

below_root-injective :
    (root user folder file user' folder' file' : Bytes)
    → IsName user
    → IsName user'
    → IsName folder
    → IsName folder'
    → below_root root user folder file ≡ below_root root user' folder' file'
    → (user ≡ user') × ((folder ≡ folder') × (file ≡ file'))
below_root-injective root user folder file user' folder' file' u u' f f' e =
    let outer = cancel_name user user' (folder ++ b'/' ∷ file) (folder' ++ b'/' ∷ file') u.1 u'.1 (
      cancel_left (with_separator root) (user ++ b'/' ∷ (folder ++ b'/' ∷ file))
        (user' ++ b'/' ∷ (folder' ++ b'/' ∷ file')) e) in
    (outer.0, cancel_name folder folder' file file' f.1 f'.1 outer.1)

-- Two message files of one folder are at the same path exactly if their users and their
-- identifiers are the same.
below_root_iff :
    (root folder user id user' id' : Bytes)
    → IsName folder
    → IsName user
    → IsName user'
    → bytes_eq
        (below_root root user folder (id ++ text ".eml"))
        (below_root root user' folder (id' ++ text ".eml"))
      ≡ (bytes_eq user user' && bytes_eq id id')
below_root_iff root folder user id user' id' f u u' =
    let same =
      below_root-injective root user folder (id ++ text ".eml") user' folder (id' ++ text ".eml") u
        u' f f in
    ground (
      arith,
      bytes_eq_iff (below_root root user folder (id ++ text ".eml"))
          (below_root root user' folder (id' ++ text ".eml")),
      bytes_eq_iff user user',
      bytes_eq_iff id id',
      same,
      cancel_right id id' (text ".eml"),
    )

module _ (root user id : Bytes) (u : IsName user) (i : IsName id) where
  module _ (user' id' : Bytes) (u' : IsName user') (i' : IsName id') where
    pub make_message_path_iff :
        bytes_eq (make_message_path root user id) (make_message_path root user' id')
        ≡ (bytes_eq user user' && bytes_eq id id')
    make_message_path_iff =
        rw (make_message_path_lem root user id u i, make_message_path_lem root user' id' u' i')
          (below_root_iff root (text "INBOX") user id user' id' inbox_IsName u u')

    pub make_quarantine_path_iff :
        bytes_eq (make_quarantine_path root user id) (make_quarantine_path root user' id')
        ≡ (bytes_eq user user' && bytes_eq id id')
    make_quarantine_path_iff =
        rw
          (make_quarantine_path_lem root user id u i, make_quarantine_path_lem root user' id' u' i')
          (below_root_iff root (text "Quarantine") user id user' id' quarantine_IsName u u')

    pub make_message_path_ne :
        bytes_eq (make_message_path root user id) (make_quarantine_path root user' id') ≡ false
    unfolding text
    make_message_path_ne =
        rw (make_message_path_lem root user id u i, make_quarantine_path_lem root user' id' u' i')
          (bytes_eq-false (below_root root user (text "INBOX") (id ++ text ".eml"))
            (below_root root user' (text "Quarantine") (id' ++ text ".eml"))
            (λ e. ground (
              arith,
              below_root-injective root user (text "INBOX") (id ++ text ".eml") user'
                  (text "Quarantine") (id' ++ text ".eml") u u' inbox_IsName quarantine_IsName e,
            )))

    pub make_quarantine_path_ne :
        bytes_eq (make_quarantine_path root user' id') (make_message_path root user id) ≡ false
    make_quarantine_path_ne = ground (
      arith,
      make_message_path_ne,
      bytes_eq_iff (make_quarantine_path root user' id') (make_message_path root user id),
      bytes_eq_iff (make_message_path root user id) (make_quarantine_path root user' id'),
    )

  pub temp_ne_message :
      (path : Bytes) → bytes_eq (temp_path path) (make_message_path root user id) ≡ false
  temp_ne_message path = bytes_eq-false (temp_path path) (make_message_path root user id) (λ e.
      let ends =
        sym (last-temp_path path)
        ∙ (ap (last 0) (e ∙ make_message_path_lem root user id u i)
            ∙ last-below_root root user (text "INBOX") id) in
      ground (arith, ends))

  pub temp_ne_quarantine :
      (path : Bytes) → bytes_eq (temp_path path) (make_quarantine_path root user id) ≡ false
  temp_ne_quarantine path =
      bytes_eq-false (temp_path path) (make_quarantine_path root user id) (λ e.
        let ends =
          sym (last-temp_path path)
          ∙ (ap (last 0) (e ∙ make_quarantine_path_lem root user id u i)
              ∙ last-below_root root user (text "Quarantine") id) in
        ground (arith, ends))

last-ends_with : (d c : ℕ) (p s : Bytes) → ends_with (c ∷ p) s ≡ true → last d s ≡ last 0 (c ∷ p)
unfolding ends_with is_empty last
last-ends_with d c p [] e = ground arith
last-ends_with d c p (b ∷ s) e = elim (Bool-cases (bytes_eq (c ∷ p) (b ∷ s))) [
  | inl same ↦ ap (last 0) (sym ((bytes_eq_iff (c ∷ p) (b ∷ s)).0 same))
  | inr other ↦ last-ends_with b c p s (ground (arith, e, other))
]

-- No path that ends as message files do is one of a temporary file.
is_temp_file-eml : (root path : Bytes) → last 0 path ≡ b'l' → is_temp_file root path ≡ false
unfolding is_temp_file text last
is_temp_file-eml root path e = ground (arith, last-ends_with 0 b'.' (text "tmp") path)

module _ (root user id : Bytes) (u : IsName user) (i : IsName id) where
  pub message_not_temp : is_temp_file root (make_message_path root user id) ≡ false
  message_not_temp = is_temp_file-eml root (make_message_path root user id) (
      ap (last 0) (make_message_path_lem root user id u i)
      ∙ last-below_root root user (text "INBOX") id)

  pub quarantine_not_temp : is_temp_file root (make_quarantine_path root user id) ≡ false
  quarantine_not_temp = is_temp_file-eml root (make_quarantine_path root user id) (
      ap (last 0) (make_quarantine_path_lem root user id u i)
      ∙ last-below_root root user (text "Quarantine") id)
