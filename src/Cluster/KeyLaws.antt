-- ===== src/Cluster/KeyLaws.antt =====
-- The keys of different users, and those of users and sessions, differ.
use email_server_backend.Base.{◌≡◌, refl, false, [], ◌∷◌, ◌++◌, ◌∙◌, arith, Bytes, text, bytes_eq}
use email_server_backend.Cluster.Keys.{cluster_key, user_key, session_key}

pub bytes_eq-append : (p a b : Bytes) → bytes_eq (p ++ a) (p ++ b) ≡ bytes_eq a b
unfolding bytes_eq
bytes_eq-append [] a b = refl
bytes_eq-append (c ∷ p) a b = ground (arith, bytes_eq-append p a b)

bytes_eq-cluster_key :
    (id a b : Bytes) → bytes_eq (cluster_key id a) (cluster_key id b) ≡ bytes_eq a b
unfolding cluster_key
bytes_eq-cluster_key id a b =
    bytes_eq-append (text "emailserver:") (id ++ (text ":" ++ a)) (id ++ (text ":" ++ b))
    ∙ (bytes_eq-append id (text ":" ++ a) (text ":" ++ b) ∙ bytes_eq-append (text ":") a b)

module _ (id : Bytes) where
  pub bytes_eq-user_key : (a b : Bytes) → bytes_eq (user_key id a) (user_key id b) ≡ bytes_eq a b
  unfolding user_key
  bytes_eq-user_key a b =
      bytes_eq-cluster_key id (text "user:" ++ a) (text "user:" ++ b)
      ∙ bytes_eq-append (text "user:") a b

  pub bytes_eq-session_key :
      (a b : Bytes) → bytes_eq (session_key id a) (session_key id b) ≡ bytes_eq a b
  unfolding session_key
  bytes_eq-session_key a b =
      bytes_eq-cluster_key id (text "session:" ++ a) (text "session:" ++ b)
      ∙ bytes_eq-append (text "session:") a b

  pub bytes_eq-session_key-user_key :
      (s u : Bytes) → bytes_eq (session_key id s) (user_key id u) ≡ false
  unfolding user_key session_key text bytes_eq
  bytes_eq-session_key-user_key s u =
      bytes_eq-cluster_key id (text "session:" ++ s) (text "user:" ++ u)
