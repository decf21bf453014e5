-- ===== src/Cluster/Expiry.antt =====
-- The clean-up of core/distributed_auth_manager.cpp against the stored users.
use email_server_backend.Base.{
  ℕ, Bool, [], ◌∷◌, ◌≡◌, refl, sym, ap, true, false, ◌+◌, ◌∙◌, Bytes, is_empty, bytes_eq,
  bytes_eq_iff, bytes_eq_refl, arith, ltb, if◌then◌else◌, none, some, Dict, lookup, insert, erase,
  lookup-insert, lookup-erase, inl, inr, Bool-cases,
}
use email_server_backend.Cluster.Keys.{user_key, verify_password}
use email_server_backend.Cluster.Manager.{
  Manager, seconds, default_ttl, is_over, drop_expired_entries, cleanup_expired_cache,
}
use email_server_backend.Cluster.Users.{add_user, validate}
use email_server_backend.Cluster.UserLaws.{IsUp, stored, stored-add_user}
use email_server_backend.Cluster.Refinement.{opens}

-- No key stands twice, as in a map.
abbrev pub IsMap : Dict ℕ → Type 0
IsMap [] = Unit
IsMap ((k, e) ∷ m) = (lookup k m ≡ none) × IsMap m

insert-IsMap : (k : Bytes) (e : ℕ) (m : Dict ℕ) → IsMap m → IsMap (insert k e m)
unfolding lookup insert
insert-IsMap k e [] h = (refl, tt)
insert-IsMap k e ((j, d) ∷ m) (fresh, h) = elim (Bool-cases (bytes_eq j k)) [
  | inl p ↦ rw (p, ap (λ (i : Bytes). lookup i m) (sym ((bytes_eq_iff j k).0 p))) (fresh, h)
  | inr p ↦ rw p (
    lookup-insert k j e m
        ∙ rw
            (let e' : bytes_eq k j ≡ false = ground (arith, bytes_eq_iff k j, bytes_eq_iff j k) in
              e')
            fresh,
    insert-IsMap k e m h,
  )
]

lookup-drop_expired_entries :
    (now : ℕ) (key : Bytes) (expiry : Dict ℕ) (cache : Dict Bytes)
    → IsMap expiry
    → lookup key (drop_expired_entries now expiry cache).0
      ≡ (if is_over now (lookup key expiry) then none else lookup key cache)
unfolding drop_expired_entries lookup
lookup-drop_expired_entries now key [] cache h = refl
lookup-drop_expired_entries now key ((k, e) ∷ rest) cache (fresh, h) = ground (
  arith,
  bytes_eq_iff k key,
  lookup-erase k key cache,
  lookup-drop_expired_entries now key rest (erase k cache) h,
  lookup-drop_expired_entries now key rest cache h,
)

add_user-IsUp :
    (id : Bytes) (m : Manager)
    → IsUp id m
    → (now : ℕ) (name hash : Bytes) → IsUp id (add_user now name hash m).1
unfolding add_user
add_user-IsUp id m h now name hash = ground arith

cache_expiry-add_user :
    (id : Bytes) (m : Manager)
    → IsUp id m
    → (now : ℕ) (name hash : Bytes) → is_empty name ≡ false
    → (add_user now name hash m).1.cache_expiry
      ≡ insert (user_key id name) (now + seconds default_ttl) m.cache_expiry
unfolding add_user
cache_expiry-add_user id m h now name hash e = ground (arith, h.up, h.cluster)

cleanup-IsUp :
    (id : Bytes) (m : Manager) → IsUp id m → (now : ℕ) → IsUp id (cleanup_expired_cache now m)
unfolding cleanup_expired_cache
cleanup-IsUp id m h now = record { up = h.up; cluster = h.cluster }

validate_lem :
    (sha256 : Bytes → Bytes) (id user pass : Bytes) (m : Manager)
    → IsUp id m
    → validate sha256 user pass m ≡ opens sha256 pass (stored id user m)
unfolding validate verify_password is_empty
validate_lem sha256 id user pass m h = ground (arith, h.up, h.cluster)

stored-cleanup :
    (id u : Bytes) (m : Manager) (now : ℕ)
    → IsMap m.cache_expiry
    → stored id u (cleanup_expired_cache now m)
      ≡ (if is_over now (lookup (user_key id u) m.cache_expiry) then none else stored id u m)
unfolding cleanup_expired_cache
stored-cleanup id u m now h =
    lookup-drop_expired_entries now (user_key id u) m.cache_expiry m.user_cache h

outcome :
    (sha256 : Bytes → Bytes) (pass hash : Bytes) (over : Bool)
    → opens sha256 pass (if over then none else some hash)
      ≡ (if over then false else opens sha256 pass (some hash))
outcome sha256 pass hash true = refl
outcome sha256 pass hash false = refl

-- On a node that runs, in whose map of expiries no key stands twice, add a user with a name that is
-- not empty, and let the clean-up run: if not more than 300 seconds have passed since, a password
-- is accepted exactly if it is the one of the hash, and if more have passed, no password is: the
-- clean-up removes the user itself, and not only a cached copy.
pub add_user-cleanup :
    (sha256 : Bytes → Bytes) (id name hash pass : Bytes) (now later : ℕ) (m : Manager)
    → IsUp id m
    → IsMap m.cache_expiry
    → is_empty name ≡ false
    → validate sha256 name pass (cleanup_expired_cache later (add_user now name hash m).1)
      ≡ (if ltb (now + seconds default_ttl) later then false else opens sha256 pass (some hash))
add_user-cleanup sha256 id name hash pass now later m h map e =
    let added = (add_user now name hash m).1 in
    let key = user_key id name in
    let due = now + seconds default_ttl in
    let maps : IsMap added.cache_expiry =
      rw (cache_expiry-add_user id m h now name hash e) (insert-IsMap key due m.cache_expiry map) in
    rw
      (
        validate_lem sha256 id name pass (cleanup_expired_cache later added)
            (cleanup-IsUp id added (add_user-IsUp id m h now name hash) later),
        stored-cleanup id name added later maps,
        stored-add_user id name m h now name hash,
        cache_expiry-add_user id m h now name hash e,
        lookup-insert key key due m.cache_expiry,
        bytes_eq_refl key,
        bytes_eq_refl name,
        e,
      )
      (outcome sha256 pass hash (ltb due later))
