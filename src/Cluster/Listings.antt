-- ===== src/Cluster/Listings.antt =====
-- `getActiveSessions` of core/distributed_auth_manager.cpp over a run of the manager.
use email_server_backend.Base.{
  ℕ, ◌==◌, ◌≡◌, refl, false, List, [], ◌∷◌, ◌++◌, subst, sym, not, ◌||◌, Bytes, text, bytes_eq,
  find, starts_with, is_empty, arith, All, Dict, insert, erase, inl, inr, Bool-cases, Option-cases,
}
use email_server_backend.Cluster.Keys.{session_key, cluster_key, generate_session_id}
use email_server_backend.Cluster.Manager.{Manager}
use email_server_backend.Cluster.Sessions.{
  create_session, validate_session, invalidate_session, begins, all_sessions,
  get_user_sessions_from_redis, get_active_sessions,
}
use email_server_backend.Cluster.Users.{add_user, remove_user, update_user_password}
use email_server_backend.Cluster.Refinement.{Call, call, run}

-- A key that `getActiveSessions` does not take for one of a session.
abbrev IsHidden : Bytes → Type 0
IsHidden key = begins (text "session:") key ≡ false

begins-other : (p s : Bytes) (c d : ℕ) → (c == d) ≡ false → begins (c ∷ p) (d ∷ s) ≡ false
unfolding begins find starts_with
begins-other p s c d h = elim (Option-cases (find (c ∷ p) s)) [
  | inl e ↦ ground (arith, e)
  | inr e ↦ ground (arith, e.1)
]

session_key-IsHidden : (id s : Bytes) → IsHidden (session_key id s)
unfolding session_key cluster_key text
session_key-IsHidden id s =
    begins-other (text "ession:") (text "mailserver:" ++ (id ++ (text ":session:" ++ s))) b's' b'e'
      refl

abbrev Hidden : Dict (Bytes × ℕ) → Type 0
Hidden = All (λ e. IsHidden e.0)

insert-Hidden :
    (key : Bytes) (v : Bytes × ℕ) (m : Dict (Bytes × ℕ))
    → IsHidden key
    → Hidden m
    → Hidden (insert key v m)
unfolding insert
insert-Hidden key v [] k h = (k, tt)
insert-Hidden key v ((j, w) ∷ m) k h = elim (Bool-cases (bytes_eq j key)) [
  | inl p ↦ rw p (k, h.1)
  | inr p ↦ rw p (h.0, insert-Hidden key v m k h.1)
]

erase-Hidden : (key : Bytes) (m : Dict (Bytes × ℕ)) → Hidden m → Hidden (erase key m)
unfolding erase
erase-Hidden key [] h = tt
erase-Hidden key ((j, w) ∷ m) h = elim (Bool-cases (bytes_eq j key)) [
  | inl p ↦ rw p (erase-Hidden key m h.1)
  | inr p ↦ rw p (h.0, erase-Hidden key m h.1)
]

all_sessions-Hidden : (m : Dict (Bytes × ℕ)) → Hidden m → all_sessions m ≡ []
unfolding all_sessions
all_sessions-Hidden [] h = refl
all_sessions-Hidden ((key, v) ∷ m) h = ground (arith, h.0, all_sessions-Hidden m h.1)

user_sessions-Hidden :
    (now : ℕ) (user : Bytes) (m : Dict (Bytes × ℕ))
    → Hidden m
    → get_user_sessions_from_redis now user m ≡ []
unfolding get_user_sessions_from_redis
user_sessions-Hidden now user [] h = refl
user_sessions-Hidden now user ((key, v) ∷ m) h =
    ground (arith, h.0, user_sessions-Hidden now user m h.1)

remove_user-session_cache :
    (name : Bytes) (m : Manager) → (remove_user name m).1.session_cache ≡ m.session_cache
unfolding remove_user
remove_user-session_cache name m = ground arith

validate_session-session_cache :
    (now : ℕ) (session : Bytes) (m : Manager)
    → (validate_session now session m).1.session_cache ≡ m.session_cache
unfolding validate_session
validate_session-session_cache now session m = ground arith

call-Hidden : (c : Call) (m : Manager) → Hidden m.session_cache → Hidden (call c m).1.session_cache
unfolding call add_user update_user_password remove_user create_session validate_session
    invalidate_session
call-Hidden (Call.add now name hash) m h = elim (Bool-cases (not m.healthy || is_empty name)) [
  | inl e ↦ rw e h
  | inr e ↦ rw e h
]
call-Hidden (Call.update now name hash) m h = elim (Bool-cases (not m.healthy || is_empty name)) [
  | inl e ↦ rw e h
  | inr e ↦ rw e h
]
call-Hidden (Call.remove name) m h = subst Hidden (sym (remove_user-session_cache name m)) h
call-Hidden (Call.open_session clocks draw name info) m h =
    elim (Bool-cases (not m.healthy || is_empty name)) [
      | inl e ↦ rw e h
      | inr e ↦ rw e (
          insert-Hidden _ _ m.session_cache
            (session_key-IsHidden m.cluster_id (generate_session_id draw)) h)
    ]
call-Hidden (Call.check_session now session) m h =
    subst Hidden (sym (validate_session-session_cache now session m)) h
call-Hidden (Call.close_session session) m h =
    elim (Bool-cases (not m.healthy || is_empty session)) [
      | inl e ↦ rw e h
      | inr e ↦ rw e (erase-Hidden _ m.session_cache h)
    ]

run-Hidden :
    (cs : List Call) (m : Manager) → Hidden m.session_cache → Hidden (run cs m).1.session_cache
unfolding run
run-Hidden [] m h = h
run-Hidden (c ∷ cs) m h = run-Hidden cs (call c m).1 (call-Hidden c m h)

-- Whatever users and sessions are added to a manager that has no sessions, `getActiveSessions`
-- lists none, for no user and not for all: it looks for keys that begin with "session:", and every
-- key begins with the prefix of the cluster.
pub get_active_sessions-run :
    (cs : List Call) (m : Manager) (now : ℕ) (user : Bytes)
    → m.session_cache ≡ []
    → get_active_sessions now user (run cs m).1 ≡ []
unfolding get_active_sessions
get_active_sessions-run cs m now user e =
    let hidden = run-Hidden cs m (subst Hidden (sym e) tt) in
    let cache = (run cs m).1.session_cache in
    ground (arith, all_sessions-Hidden cache hidden, user_sessions-Hidden now user cache hidden)
