-- ===== src/Cluster/SessionLaws.antt =====
-- Sessions of core/distributed_auth_manager.cpp from their creation on.
use email_server_backend.Base.{
  ℕ, Bool, [], ◌≡◌, ap, ◌≢◌, refl, true, false, ◌+◌, ◌∷◌, ◌++◌, Bytes, is_empty, bytes_eq, find,
  substr, find-byte, All, take-append, arith, ltb, if◌then◌else◌, Option, none, some, lookup-insert,
  lookup-erase, inl, inr, Bool-cases,
}
use email_server_backend.Cluster.Keys.{session_key, generate_session_id}
use email_server_backend.Cluster.KeyLaws.{bytes_eq-session_key}
use email_server_backend.Cluster.Manager.{
  Manager, Clocks, seconds, session_timeout, get_from_local_cache, get_session_from_redis,
  split_value,
}
use email_server_backend.Cluster.Sessions.{create_session, validate_session, invalidate_session}
use email_server_backend.Cluster.UserLaws.{IsUp}

-- The name that a value "user:rest" of the cache gives, or the one that the store gives.
stored_answer : Bytes × Bytes → Option Bytes
stored_answer found = if is_empty found.0 then none else some found.0

answer : Bytes → Bytes × Bytes → Option Bytes
answer cached found =
    if is_empty cached then stored_answer found else elim (find (b':' ∷ []) cached) [
      | none ↦ stored_answer found
      | some p ↦ some (substr cached 0 p)
    ]

answer-empty : answer [] ([], []) ≡ none
unfolding answer stored_answer is_empty
answer-empty = refl

if-same : (b : Bool) (o : Option Bytes) → (if b then o else o) ≡ o
if-same true o = refl
if-same false o = refl

answer-value :
    (user rest : Bytes) (found : Bytes × Bytes)
    → All (λ c. c ≢ b':') user
    → answer (user ++ b':' ∷ rest) found ≡ some user
unfolding answer substr is_empty
answer-value [] rest found h = rw (find-byte b':' [] rest h) refl
answer-value (c ∷ user) rest found h =
    rw (find-byte b':' (c ∷ user) rest h) (ap some (take-append (c ∷ user) (b':' ∷ rest)))

module _ (id : Bytes) (m : Manager) (h : IsUp id m) where
  local-create_session :
      (clocks : Clocks) (draw : ℕ → ℕ) (name info s : Bytes) (now : ℕ)
      → is_empty name ≡ false
      → get_from_local_cache now (session_key id s) (create_session clocks draw name info m).1 ≡ (
          if bytes_eq (generate_session_id draw) s
          then (if ltb (clocks.steady + seconds session_timeout) now
              then []
              else name ++ b':' ∷ info)
          else get_from_local_cache now (session_key id s) m)
  unfolding create_session get_from_local_cache
  local-create_session clocks draw name info s now e =
      let key = session_key id (generate_session_id draw) in
      ground (
        arith,
        h.up,
        h.cluster,
        bytes_eq-session_key id (generate_session_id draw) s,
        lookup-insert key (session_key id s) (name ++ b':' ∷ info) m.user_cache,
        lookup-insert key (session_key id s) (clocks.steady + seconds session_timeout)
            m.cache_expiry,
      )

  redis-create_session :
      (clocks : Clocks) (draw : ℕ → ℕ) (name info s : Bytes) (now : ℕ)
      → is_empty name ≡ false
      → get_session_from_redis now s (create_session clocks draw name info m).1 ≡ (
          if bytes_eq (generate_session_id draw) s
          then (if ltb (clocks.steady + seconds session_timeout) now
              then ([], [])
              else split_value (name ++ b':' ∷ info))
          else get_session_from_redis now s m)
  unfolding create_session get_session_from_redis
  redis-create_session clocks draw name info s now e =
      let key = session_key id (generate_session_id draw) in
      ground (
        arith,
        h.up,
        h.cluster,
        bytes_eq-session_key id (generate_session_id draw) s,
        lookup-insert key (session_key id s)
            (name ++ b':' ∷ info, clocks.steady + seconds session_timeout) m.session_cache,
      )

  answer_lem :
      (now : ℕ) (s : Bytes)
      → (validate_session now s m).0 ≡ (
          if is_empty s
          then none
          else answer
              (get_from_local_cache now (session_key id s) m)
              (get_session_from_redis now s m))
  unfolding validate_session answer stored_answer
  answer_lem now s = ground (arith, h.up, h.cluster)

  local-invalidate_session :
      (s t : Bytes) (now : ℕ)
      → is_empty s ≡ false
      → get_from_local_cache now (session_key id t) (invalidate_session s m)
        ≡ (if bytes_eq s t then [] else get_from_local_cache now (session_key id t) m)
  unfolding invalidate_session get_from_local_cache
  local-invalidate_session s t now e = ground (
    arith,
    h.up,
    h.cluster,
    bytes_eq-session_key id s t,
    lookup-erase (session_key id s) (session_key id t) m.user_cache,
    lookup-erase (session_key id s) (session_key id t) m.cache_expiry,
  )

  redis-invalidate_session :
      (s t : Bytes) (now : ℕ)
      → is_empty s ≡ false
      → get_session_from_redis now t (invalidate_session s m)
        ≡ (if bytes_eq s t then ([], []) else get_session_from_redis now t m)
  unfolding invalidate_session get_session_from_redis
  redis-invalidate_session s t now e = ground (
    arith,
    h.up,
    h.cluster,
    bytes_eq-session_key id s t,
    lookup-erase (session_key id s) (session_key id t) m.session_cache,
  )

create_session-IsUp :
    (id : Bytes) (m : Manager)
    → IsUp id m
    → (clocks : Clocks) (draw : ℕ → ℕ) (name info : Bytes)
    → IsUp id (create_session clocks draw name info m).1
unfolding create_session
create_session-IsUp id m h clocks draw name info = ground arith

invalidate_session-IsUp :
    (id : Bytes) (m : Manager) → IsUp id m → (s : Bytes) → IsUp id (invalidate_session s m)
unfolding invalidate_session
invalidate_session-IsUp id m h s = ground arith

created_id :
    (id : Bytes) (m : Manager)
    → IsUp id m
    → (clocks : Clocks) (draw : ℕ → ℕ) (name info : Bytes) → is_empty name ≡ false
    → (create_session clocks draw name info m).0 ≡ generate_session_id draw
unfolding create_session
created_id id m h clocks draw name info e = ground (arith, h.up)

-- A new identifier is not empty.
id-not-empty :
    (draw : ℕ → ℕ) (s : Bytes) → bytes_eq (generate_session_id draw) s ≡ true → is_empty s ≡ false
unfolding generate_session_id bytes_eq is_empty
id-not-empty draw [] e = cc
id-not-empty draw (c ∷ s) e = refl

created_answer :
    (draw : ℕ → ℕ) (s : Bytes)
    → bytes_eq (generate_session_id draw) s ≡ true
    → (over : Bool) (name info user rest : Bytes) → name ++ b':' ∷ info ≡ user ++ b':' ∷ rest
    → All (λ c. c ≢ b':') user
    → (if is_empty s
        then none
        else answer
            (if over then [] else name ++ b':' ∷ info)
            (if over then ([], []) else split_value (name ++ b':' ∷ info)))
      ≡ (if over then none else some user)
created_answer draw s p true name info user rest split colon =
    rw (id-not-empty draw s p, answer-empty) refl
created_answer draw s p false name info user rest split colon =
    rw (id-not-empty draw s p, split)
      (answer-value user rest (split_value (user ++ b':' ∷ rest)) colon)

-- On a node that runs, a session that is created for a user with a name that is not empty is valid
-- for 24 hours, as a session of the part of the user's name before the first ':', and of nobody
-- afterwards; and what a check of any other session answers is what it was.
pub create_session-validate_session :
    (id : Bytes) (m : Manager) (clocks : Clocks) (draw : ℕ → ℕ) (name info user rest s : Bytes)
    (now : ℕ)
    → IsUp id m
    → is_empty name ≡ false
    → name ++ b':' ∷ info ≡ user ++ b':' ∷ rest
    → All (λ c. c ≢ b':') user
    → let created = create_session clocks draw name info m in
      (validate_session now s created.1).0 ≡ (
        if bytes_eq created.0 s
        then (if ltb (clocks.steady + seconds session_timeout) now then none else some user)
        else (validate_session now s m).0)
unfolding is_empty
create_session-validate_session id m clocks draw name info user rest s now h e split colon =
    let made = (create_session clocks draw name info m).1 in
    rw
      (
        answer_lem id m h now s,
        answer_lem id made (create_session-IsUp id m h clocks draw name info) now s,
        local-create_session id m h clocks draw name info s now e,
        redis-create_session id m h clocks draw name info s now e,
        created_id id m h clocks draw name info e,
      )
      (elim (Bool-cases (bytes_eq (generate_session_id draw) s)) [
        | inl p ↦ rw p (
            created_answer draw s p (ltb (clocks.steady + seconds session_timeout) now) name info
              user rest split colon)
        | inr p ↦ rw p refl
      ])

-- On a node that runs, a session that was ended is not valid, whatever was stored for it, and the
-- check of every other session answers what it did.
pub invalidate_session-validate_session :
    (id : Bytes) (m : Manager) (s t : Bytes) (now : ℕ)
    → IsUp id m
    → is_empty s ≡ false
    → (validate_session now t (invalidate_session s m)).0
      ≡ (if bytes_eq s t then none else (validate_session now t m).0)
invalidate_session-validate_session id m s t now h e =
    rw
      (
        answer_lem id m h now t,
        answer_lem id (invalidate_session s m) (invalidate_session-IsUp id m h s) now t,
        local-invalidate_session id m h s t now e,
        redis-invalidate_session id m h s t now e,
      )
      (elim (Bool-cases (bytes_eq s t)) [
        | inl p ↦ rw (p, answer-empty) (if-same (is_empty t) none)
        | inr p ↦ rw p refl
      ])
