-- ===== src/Cluster/UserLaws.antt =====
-- What each call of core/distributed_auth_manager.cpp does to the stored users of a healthy node.
use email_server_backend.Base.{
  ℕ, Bool, ◌∷◌, ◌++◌, insert, erase, ◌≡◌, true, false, Bytes, is_empty, bytes_eq, arith,
  if◌then◌else◌, Option, none, some, lookup, lookup-insert, lookup-erase,
}
use email_server_backend.Cluster.Keys.{user_key, session_key, generate_session_id}
use email_server_backend.Cluster.KeyLaws.{bytes_eq-user_key, bytes_eq-session_key-user_key}
use email_server_backend.Cluster.Manager.{Manager, Clocks, get_session_from_redis}
use email_server_backend.Cluster.Users.{add_user, remove_user}
use email_server_backend.Cluster.Sessions.{create_session, validate_session, invalidate_session}

-- The node runs, with this name of its cluster.
pub record IsUp (id : Bytes) (m : Manager) : Type 0 where
  pub up : m.healthy ≡ true
  pub cluster : m.cluster_id ≡ id

-- What is stored for a user.
abbrev pub stored : Bytes → Bytes → Manager → Option Bytes
stored id u m = lookup (user_key id u) m.user_cache

abbrev pub is_some : Option Bytes → Bool
is_some none = false
is_some (some v) = true

module _ (id u : Bytes) (m : Manager) (h : IsUp id m) where
  pub stored-add_user :
      (now : ℕ) (name hash : Bytes)
      → stored id u (add_user now name hash m).1 ≡ (
          if is_empty name
          then stored id u m
          else if bytes_eq name u
          then some hash
          else stored id u m)
  unfolding add_user
  stored-add_user now name hash =
      let key = user_key id name in
      ground (
        arith,
        h.up,
        h.cluster,
        bytes_eq-user_key id name u,
        lookup-insert key (user_key id u) hash m.user_cache,
        lookup-insert key (user_key id u) hash (insert key hash m.user_cache),
      )

  pub stored-remove_user :
      (name : Bytes)
      → stored id u (remove_user name m).1
        ≡ (if is_empty name then stored id u m else if bytes_eq name u then none else stored id u m)
  unfolding remove_user
  stored-remove_user name =
      let key = user_key id name in
      ground (
        arith,
        h.up,
        h.cluster,
        bytes_eq-user_key id name u,
        lookup-erase key (user_key id u) m.user_cache,
        lookup-erase key (user_key id u) (erase key m.user_cache),
      )

  pub stored-create_session :
      (clocks : Clocks) (draw : ℕ → ℕ) (name info : Bytes)
      → stored id u (create_session clocks draw name info m).1 ≡ stored id u m
  unfolding create_session
  stored-create_session clocks draw name info =
      let session = generate_session_id draw in
      ground (
        arith,
        h.up,
        h.cluster,
        bytes_eq-session_key-user_key id session u,
        lookup-insert (session_key id session) (user_key id u) (name ++ b':' ∷ info) m.user_cache,
      )

  pub stored-validate_session :
      (now : ℕ) (session : Bytes) → stored id u (validate_session now session m).1 ≡ stored id u m
  unfolding validate_session
  stored-validate_session now session =
      let found = get_session_from_redis now session m in
      ground (
        arith,
        h.up,
        h.cluster,
        bytes_eq-session_key-user_key id session u,
        lookup-insert (session_key id session) (user_key id u) (found.0 ++ b':' ∷ found.1)
            m.user_cache,
      )

  pub stored-invalidate_session :
      (session : Bytes) → stored id u (invalidate_session session m) ≡ stored id u m
  unfolding invalidate_session
  stored-invalidate_session session = ground (
    arith,
    h.up,
    h.cluster,
    bytes_eq-session_key-user_key id session u,
    lookup-erase (session_key id session) (user_key id u) m.user_cache,
  )
