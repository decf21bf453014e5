-- ===== src/Cluster/Tests.antt =====
-- Runs of core/distributed_auth_manager.cpp with a toy hash.
use email_server_backend.Base.{
  ◌+◌, ◌≡◌, refl, true, false, List, [], ◌∷◌, arith, Bytes, text, bytes_eq, is_empty, find, substr,
  starts_with, ltb, if◌then◌else◌, some, none, lookup, insert, erase,
}
use email_server_backend.Cluster.Keys.{hash_password, generate_session_id, user_key, session_key}
use email_server_backend.Cluster.Manager.{
  Manager, Clocks, seconds, default_ttl, session_timeout, initialize, shutdown, is_healthy,
  cleanup_expired_cache,
}
use email_server_backend.Cluster.Users.{
  add_user, remove_user, update_user_password, validate, get_user_count, authenticate_smtp,
}
use email_server_backend.Cluster.Sessions.{create_session, validate_session, get_active_sessions}
use email_server_backend.Cluster.Loading.{Entry, File, load_from_file}
use email_server_backend.Cluster.UserLaws.{IsUp}
use email_server_backend.Cluster.Refinement.{
  Call, run, mean_run, Table, Represents, opens, run-refines,
}
use email_server_backend.Cluster.SessionLaws.{create_session-validate_session}
use email_server_backend.Cluster.Expiry.{add_user-cleanup}
use email_server_backend.Cluster.Listings.{get_active_sessions-run}

abbrev toy_hash : Bytes → Bytes
toy_hash p = p

abbrev idle : Manager
idle = record {
  redis_host = [];
  redis_port = 0;
  redis_password = [];
  cluster_id = [];
  node_id = [];
  connected = false;
  user_cache = [];
  session_cache = [];
  cache_expiry = [];
  replicating = false;
  healthy = false;
}

abbrev c1 : Bytes
unfolding text
c1 = text "c1"

abbrev node : Manager
unfolding initialize text
node = initialize (λ i. i) (text "localhost") 6379 [] c1 (text "n1") idle

node-IsUp : IsUp c1 node
unfolding node
node-IsUp = record { up = refl; cluster = refl }

abbrev nobody : Table
nobody = λ u. none

node-Represents : Represents c1 nobody node
unfolding lookup node
node-Represents = record { running = node-IsUp; table = λ u. refl }

abbrev noon : Clocks
noon = record { steady = 5; wall = 1000 }

abbrev calls : List Call
unfolding text
calls =
    Call.add 1 (text "ann") (text "6f6e65")
    ∷ Call.open_session noon (λ i. 7) (text "ann") []
    ∷ Call.update 2 (text "ann") (text "74776f")
    ∷ Call.remove (text "bob")
    ∷ []

run-refines_example :
    ((run calls node).0 ≡ (mean_run calls nobody).0)
    × (validate toy_hash (text "ann") (text "two") (run calls node).1
        ≡ opens toy_hash (text "two") ((mean_run calls nobody).1 (text "ann")))
run-refines_example =
    run-refines toy_hash c1 nobody node calls (text "ann") (text "two") node-Represents

-- The password that was set last opens the account.
opens-last : opens toy_hash (text "two") ((mean_run calls nobody).1 (text "ann")) ≡ true
unfolding mean_run text is_empty bytes_eq hash_password calls
opens-last = refl

create_session-validate_session_example :
    let created = create_session noon (λ i. 7) (text "ann:x") (text "web") node in
    (validate_session 9 (generate_session_id (λ i. 7)) created.1).0 ≡ (
      if bytes_eq created.0 (generate_session_id (λ i. 7))
      then (if ltb (noon.steady + seconds session_timeout) 9 then none else some (text "ann"))
      else (validate_session 9 (generate_session_id (λ i. 7)) node).0)
unfolding text is_empty
create_session-validate_session_example =
    create_session-validate_session c1 node noon (λ i. 7) (text "ann:x") (text "web") (text "ann")
      (text "x:web") (generate_session_id (λ i. 7)) 9 node-IsUp refl refl (ground arith)

add_user-cleanup_example :
    validate toy_hash
      (text "ann")
      (text "one")
      (cleanup_expired_cache (seconds 301) (add_user 1 (text "ann") (text "6f6e65") node).1)
    ≡ (if ltb (1 + seconds default_ttl) (seconds 301)
        then false
        else opens toy_hash (text "one") (some (text "6f6e65")))
unfolding text is_empty node
add_user-cleanup_example =
    add_user-cleanup toy_hash c1 (text "ann") (text "6f6e65") (text "one") 1 (seconds 301) node
      node-IsUp tt refl

get_active_sessions-run_example : get_active_sessions 9 (text "ann") (run calls node).1 ≡ []
unfolding node
get_active_sessions-run_example = get_active_sessions-run calls node 9 (text "ann") refl

abbrev used : Manager
unfolding run node calls initialize text is_empty bytes_eq insert erase lookup user_key session_key
    create_session add_user remove_user update_user_password generate_session_id
used = (run calls node).1

-- The count includes the session.
counts_session : get_user_count used ≡ 2
unfolding get_user_count used
counts_session = refl

-- The login takes a name and a password in the clear.
logs_in : (authenticate_smtp toy_hash (text "PLAIN ann two") used).accepted ≡ true
unfolding used authenticate_smtp find substr starts_with text bytes_eq user_key lookup is_empty
logs_in = refl

-- What a file holds is hashed once more: a hash that stands there is taken for the password.
hashes_again :
    let loaded =
      load_from_file toy_hash 1
        (File.users_of (Entry.with_password (text "ann") (text "a") ∷ []))
        node in
    validate toy_hash (text "ann") (text "a") loaded.1 ≡ true
unfolding load_from_file validate initialize text is_empty bytes_eq insert lookup user_key node
hashes_again = refl

stopped : is_healthy (shutdown node) ≡ false
unfolding is_healthy shutdown initialize node
stopped = refl
