-- ===== src/Cluster/Users.antt =====
-- The users of core/distributed_auth_manager.cpp.
use email_server_backend.Base.{
  ℕ, ◌+◌, Bool, true, false, not, ◌||◌, [], ◌∷◌, Bytes, text, is_empty, substr, drop, find, length,
  if◌then◌else◌, Option, none, some,
}
use email_server_backend.Cluster.Keys.{user_key, verify_password}
use email_server_backend.Cluster.Manager.{
  Manager, default_ttl, store_user_in_redis, get_user_from_redis, delete_user_from_redis,
  update_local_cache, get_from_local_cache, invalidate_local_cache,
}

-- What `authenticateSmtp` returns, and the name that it sets, if it sets one.
pub record Login : Type 0 where
  pub accepted : Bool
  pub username : Option Bytes

abbrev no_login : Login
no_login = record { accepted = false; username = none }

module _ (sha256 : Bytes → Bytes) where
  unfoldable pub validate : Bytes → Bytes → Manager → Bool
  unfolding get_user_from_redis is_empty verify_password
  validate user pass m =
      let stored = get_user_from_redis user m in
      if not m.healthy
      then false
      else if is_empty stored
      then false
      else verify_password sha256 pass stored

  unfoldable pub authenticate_smtp : Bytes → Manager → Login
  unfolding find substr text validate
  authenticate_smtp args m = elim (find (text "PLAIN") args) [
    | none ↦ no_login
    | some _ ↦ elim (find (b' ' ∷ []) args) [
      | none ↦ no_login
      | some space ↦
          let auth = drop (space + 1) args in
          elim (find (b' ' ∷ []) auth) [
            | none ↦ no_login
            | some user_end ↦
                let user = substr auth 0 user_end in
                record {
                  accepted = validate user (drop (user_end + 1) auth) m;
                  username = some user;
                }
          ]
    ]
  ]

unfoldable pub user_exists : ℕ → Bytes → Manager → Bool
unfolding get_from_local_cache get_user_from_redis is_empty
user_exists now user m =
    if not m.healthy
    then false
    else if not (is_empty (get_from_local_cache now (user_key m.cluster_id user) m))
    then true
    else not (is_empty (get_user_from_redis user m))

unfoldable pub get_user_count : Manager → ℕ
get_user_count m = if not m.healthy then 0 else length m.user_cache

unfoldable pub add_user : ℕ → Bytes → Bytes → Manager → Bool × Manager
unfolding is_empty store_user_in_redis update_local_cache
add_user now name hash m = if not m.healthy || is_empty name then (false, m) else (
  true,
  update_local_cache now (user_key m.cluster_id name) hash default_ttl
      (store_user_in_redis name hash m),
)

unfoldable pub remove_user : Bytes → Manager → Bool × Manager
unfolding is_empty delete_user_from_redis invalidate_local_cache
remove_user name m =
    let deleted = delete_user_from_redis name m in
    if not m.healthy || is_empty name
    then (false, m)
    else if not deleted.0
    then (false, deleted.1)
    else (true, invalidate_local_cache (user_key m.cluster_id name) deleted.1)

unfoldable pub update_user_password : ℕ → Bytes → Bytes → Manager → Bool × Manager
unfolding is_empty store_user_in_redis update_local_cache
update_user_password now name hash m = if not m.healthy || is_empty name then (false, m) else (
  true,
  update_local_cache now (user_key m.cluster_id name) hash default_ttl
      (store_user_in_redis name hash m),
)
