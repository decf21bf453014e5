-- ===== src/Cluster/Manager.antt =====
-- The state of `DistributedAuthManager` and its private members over the maps, as they stand in
-- for Redis and as a local cache. Times are readings of the steady clock in nanoseconds, and one
-- call reads each clock once. The lock is held within each member, and messages are left out.
use email_server_backend.Base.{
  ℕ, ◌+◌, ◌-◌, ◌*◌, Bool, true, false, ◌&&◌, List, [], ◌∷◌, ◌++◌, Bytes, text, is_empty, substr,
  drop, find, ltb, if◌then◌else◌, Option, none, some, Dict, lookup, insert, erase,
}
use email_server_backend.Cluster.Keys.{user_key, session_key, generate_node_id}

pub record Manager : Type 0 where
  pub redis_host : Bytes
  pub redis_port : ℕ
  pub redis_password : Bytes
  pub cluster_id : Bytes
  pub node_id : Bytes
  pub connected : Bool
  pub user_cache : Dict Bytes
  pub session_cache : Dict (Bytes × ℕ)
  pub cache_expiry : Dict ℕ
  pub replicating : Bool
  pub healthy : Bool

-- The readings of `steady_clock` and of `std::time`.
pub record Clocks : Type 0 where
  pub steady : ℕ
  pub wall : ℕ

abbrev pub seconds : ℕ → ℕ
seconds n = n * 1000000000

abbrev pub session_timeout : ℕ
session_timeout = 86400

abbrev pub default_ttl : ℕ
default_ttl = 300

unfoldable pub initialize : (ℕ → ℕ) → Bytes → ℕ → Bytes → Bytes → Bytes → Manager → Manager
unfolding is_empty generate_node_id
initialize draw host port password cluster node m = record m {
  redis_host = host;
  redis_port = port;
  redis_password = password;
  cluster_id = cluster;
  node_id = if is_empty node then generate_node_id draw else node;
  connected = true;
  replicating = true;
  healthy = true;
}

unfoldable pub disconnect_from_redis : Manager → Manager
disconnect_from_redis m = record m { connected = false }

unfoldable pub shutdown : Manager → Manager
unfolding disconnect_from_redis
shutdown m =
    let stopped = disconnect_from_redis (record m { replicating = false }) in
    record stopped { healthy = false }

unfoldable pub is_healthy : Manager → Bool
is_healthy m = m.healthy && m.connected

unfoldable pub get_cluster_status : Manager → Bytes
unfolding text
get_cluster_status m = if m.healthy then text "CLUSTER: 1 nodes (simulated)" else text "UNHEALTHY"

unfoldable pub get_cluster_nodes : Manager → List Bytes
get_cluster_nodes m = if m.healthy then m.node_id ∷ [] else []

-- What a map holds, with "" for a key that is missing.
abbrev pub or_empty : Option Bytes → Bytes
or_empty none = []
or_empty (some v) = v

unfoldable pub store_user_in_redis : Bytes → Bytes → Manager → Manager
store_user_in_redis name hash m = record m {
  user_cache = insert (user_key m.cluster_id name) hash m.user_cache;
}

unfoldable pub get_user_from_redis : Bytes → Manager → Bytes
get_user_from_redis name m = or_empty (lookup (user_key m.cluster_id name) m.user_cache)

-- Whether `erase` found the key, and the state after it.
unfoldable pub delete_user_from_redis : Bytes → Manager → Bool × Manager
delete_user_from_redis name m =
    let key = user_key m.cluster_id name in
    (
      elim (lookup key m.user_cache) [ none ↦ false | some v ↦ true ],
      record m { user_cache = erase key m.user_cache },
    )

unfoldable pub store_session_in_redis : Clocks → Bytes → Bytes → Bytes → ℕ → Manager → Manager
unfolding text
store_session_in_redis clocks session name info expiry m = record m {
  session_cache =
      insert (session_key m.cluster_id session)
        (name ++ (text ":" ++ info), clocks.steady + seconds (expiry - clocks.wall))
        m.session_cache;
}

-- The user and the client's description, as the value of a session gives them.
unfoldable pub split_value : Bytes → Bytes × Bytes
unfolding find substr
split_value value = elim (find (b':' ∷ []) value) [
  | none ↦ ([], [])
  | some p ↦ (substr value 0 p, drop (p + 1) value)
]

unfoldable pub get_session_from_redis : ℕ → Bytes → Manager → Bytes × Bytes
unfolding split_value
get_session_from_redis now session m =
    elim (lookup (session_key m.cluster_id session) m.session_cache) [
      | none ↦ ([], [])
      | some (value, expiry) ↦ if ltb expiry now then ([], []) else split_value value
    ]

unfoldable pub delete_session_from_redis : Bytes → Manager → Manager
delete_session_from_redis session m = record m {
  session_cache = erase (session_key m.cluster_id session) m.session_cache;
}

unfoldable pub update_local_cache : ℕ → Bytes → Bytes → ℕ → Manager → Manager
update_local_cache now key value ttl m = record m {
  user_cache = insert key value m.user_cache;
  cache_expiry = insert key (now + seconds ttl) m.cache_expiry;
}

abbrev pub is_over : ℕ → Option ℕ → Bool
is_over now none = false
is_over now (some expiry) = ltb expiry now

unfoldable pub get_from_local_cache : ℕ → Bytes → Manager → Bytes
get_from_local_cache now key m = elim (lookup key m.user_cache) [
  | none ↦ []
  | some v ↦ if is_over now (lookup key m.cache_expiry) then [] else v
]

unfoldable pub invalidate_local_cache : Bytes → Manager → Manager
invalidate_local_cache key m = record m {
  user_cache = erase key m.user_cache;
  cache_expiry = erase key m.cache_expiry;
}

-- The first loop of `cleanupExpiredCache`.
unfoldable pub drop_expired_sessions : ℕ → Dict (Bytes × ℕ) → Dict (Bytes × ℕ)
drop_expired_sessions now [] = []
drop_expired_sessions now ((key, (value, expiry)) ∷ rest) =
    let kept = drop_expired_sessions now rest in
    if ltb expiry now then kept else (key, (value, expiry)) ∷ kept

-- The second loop: the cached values, and the expiries that are left.
unfoldable pub drop_expired_entries : ℕ → Dict ℕ → Dict Bytes → Dict Bytes × Dict ℕ
drop_expired_entries now [] cache = (cache, [])
drop_expired_entries now ((key, expiry) ∷ rest) cache =
    let over = drop_expired_entries now rest (erase key cache) in
    let kept = drop_expired_entries now rest cache in
    if ltb expiry now then over else (kept.0, (key, expiry) ∷ kept.1)

unfoldable pub cleanup_expired_cache : ℕ → Manager → Manager
unfolding drop_expired_sessions drop_expired_entries
cleanup_expired_cache now m =
    let entries = drop_expired_entries now m.cache_expiry m.user_cache in
    record m {
      session_cache = drop_expired_sessions now m.session_cache;
      user_cache = entries.0;
      cache_expiry = entries.1;
    }
