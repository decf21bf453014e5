-- ===== src/Cluster/Sessions.antt =====
-- The sessions of core/distributed_auth_manager.cpp.
use email_server_backend.Base.{
  ℕ, ◌+◌, ◌-◌, Bool, false, not, ◌||◌, ◌&&◌, List, [], ◌∷◌, ◌++◌, Bytes, text, bytes_eq, is_empty,
  substr, drop, find, ◌==◌, leb, if◌then◌else◌, Option, none, some, Dict,
}
use email_server_backend.Cluster.Keys.{session_key, generate_session_id}
use email_server_backend.Cluster.Manager.{
  Manager, Clocks, session_timeout, default_ttl, store_session_in_redis, get_session_from_redis,
  delete_session_from_redis, update_local_cache, get_from_local_cache, invalidate_local_cache,
}

-- The name that `validateSession` sets where it returns true, or that it returns false, and the
-- state after it.
abbrev pub Checked : Type 0
Checked = Option Bytes × Manager

unfoldable pub create_session : Clocks → (ℕ → ℕ) → Bytes → Bytes → Manager → Bytes × Manager
unfolding is_empty store_session_in_redis update_local_cache text
create_session clocks draw name info m =
    let session = generate_session_id draw in
    let expiry = clocks.wall + session_timeout in
    if not m.healthy || is_empty name then ([], m) else (
      session,
      update_local_cache clocks.steady (session_key m.cluster_id session)
          (name ++ (text ":" ++ info)) (expiry - clocks.wall)
          (store_session_in_redis clocks session name info expiry m),
    )

-- From line 160 on.
unfoldable pub check_redis : ℕ → Bytes → Manager → Checked
unfolding get_session_from_redis is_empty update_local_cache text
check_redis now session m =
    let (user, info) = get_session_from_redis now session m in
    if is_empty user then (none, m) else (
      some user,
      update_local_cache now (session_key m.cluster_id session) (user ++ (text ":" ++ info))
          default_ttl m,
    )

unfoldable pub validate_session : ℕ → Bytes → Manager → Checked
unfolding get_from_local_cache is_empty find substr check_redis
validate_session now session m =
    let cached = get_from_local_cache now (session_key m.cluster_id session) m in
    let rest = check_redis now session m in
    if not m.healthy || is_empty session
    then (none, m)
    else if is_empty cached
    then rest
    else elim (find (b':' ∷ []) cached) [ none ↦ rest | some p ↦ (some (substr cached 0 p), m) ]

unfoldable pub invalidate_session : Bytes → Manager → Manager
unfolding is_empty delete_session_from_redis invalidate_local_cache
invalidate_session session m =
    if not m.healthy || is_empty session
    then m
    else invalidate_local_cache (session_key m.cluster_id session)
        (delete_session_from_redis session m)

-- `find(p) == 0`.
unfoldable pub begins : Bytes → Bytes → Bool
unfolding find
begins p s = elim (find p s) [ none ↦ false | some i ↦ i == 0 ]

unfoldable pub all_sessions : Dict (Bytes × ℕ) → List Bytes
unfolding begins text
all_sessions [] = []
all_sessions ((key, v) ∷ rest) =
    let others = all_sessions rest in
    if begins (text "session:") key then drop 8 key ∷ others else others

-- Whether the value of a session names the user.
unfoldable pub names_user : Bytes → Bytes → Bool
unfolding find substr bytes_eq
names_user user value = elim (find (b':' ∷ []) value) [
  | none ↦ false
  | some p ↦ bytes_eq (substr value 0 p) user
]

unfoldable pub get_user_sessions_from_redis : ℕ → Bytes → Dict (Bytes × ℕ) → List Bytes
unfolding begins text names_user
get_user_sessions_from_redis now user [] = []
get_user_sessions_from_redis now user ((key, (value, expiry)) ∷ rest) =
    let others = get_user_sessions_from_redis now user rest in
    if (begins (text "session:") key && leb now expiry) && names_user user value
    then drop 8 key ∷ others
    else others

unfoldable pub get_active_sessions : ℕ → Bytes → Manager → List Bytes
unfolding is_empty all_sessions get_user_sessions_from_redis
get_active_sessions now user m =
    if not m.healthy
    then []
    else if is_empty user
    then all_sessions m.session_cache
    else get_user_sessions_from_redis now user m.session_cache
