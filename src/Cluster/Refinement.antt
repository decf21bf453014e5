-- ===== src/Cluster/Refinement.antt =====
-- The users of core/distributed_auth_manager.cpp against a table of hashes, over any sequence of
-- calls between two runs of the clean-up.
use email_server_backend.Base.{
  ℕ, Bool, ◌≡◌, refl, false, not, ◌&&◌, List, [], ◌∷◌, ◌++◌, Bytes, is_empty, bytes_eq, arith,
  if◌then◌else◌, Option, none, some,
}
use email_server_backend.Cluster.Keys.{hash_password, verify_password}
use email_server_backend.Cluster.Manager.{Manager, Clocks}
use email_server_backend.Cluster.Users.{add_user, remove_user, update_user_password, validate}
use email_server_backend.Cluster.Sessions.{create_session, validate_session, invalidate_session}
use email_server_backend.Cluster.UserLaws.{
  IsUp, stored, is_some, stored-add_user, stored-remove_user, stored-create_session,
  stored-validate_session, stored-invalidate_session,
}

-- A call of the manager.
pub data Call : Type 0 where
  add : ℕ → Bytes → Bytes → Call
  update : ℕ → Bytes → Bytes → Call
  remove : Bytes → Call
  open_session : Clocks → (ℕ → ℕ) → Bytes → Bytes → Call
  check_session : ℕ → Bytes → Call
  close_session : Bytes → Call

-- The answer of a call about users; a call about sessions gives none here.
unfoldable pub call : Call → Manager → List Bool × Manager
call (add now name hash) m = let r = add_user now name hash m in (r.0 ∷ [], r.1)
call (update now name hash) m = let r = update_user_password now name hash m in (r.0 ∷ [], r.1)
call (remove name) m = let r = remove_user name m in (r.0 ∷ [], r.1)
call (open_session clocks draw name info) m = ([], (create_session clocks draw name info m).1)
call (check_session now session) m = ([], (validate_session now session m).1)
call (close_session session) m = ([], invalidate_session session m)

unfoldable pub run : List Call → Manager → List Bool × Manager
unfolding call
run [] m = ([], m)
run (c ∷ cs) m = let first = call c m in let rest = run cs first.1 in (first.0 ++ rest.0, rest.1)

abbrev pub Table : Type 0
Table = Bytes → Option Bytes

abbrev pub write : Bytes → Bytes → Table → Table
write name hash t = λ u. if is_empty name then t u else if bytes_eq name u then some hash else t u

-- What a call means for the table.
unfoldable pub mean : Call → Table → List Bool × Table
mean (add now name hash) t = (not (is_empty name) ∷ [], write name hash t)
mean (update now name hash) t = (not (is_empty name) ∷ [], write name hash t)
mean (remove name) t = (
  (not (is_empty name) && is_some (t name)) ∷ [],
  λ u. if is_empty name then t u else if bytes_eq name u then none else t u,
)
mean (open_session clocks draw name info) t = ([], t)
mean (check_session now session) t = ([], t)
mean (close_session session) t = ([], t)

unfoldable pub mean_run : List Call → Table → List Bool × Table
unfolding mean
mean_run [] t = ([], t)
mean_run (c ∷ cs) t =
    let first = mean c t in let rest = mean_run cs first.1 in (first.0 ++ rest.0, rest.1)

-- The node runs and stores this table.
pub record Represents (id : Bytes) (t : Table) (m : Manager) : Type 0 where
  pub running : IsUp id m
  pub table : (u : Bytes) → stored id u m ≡ t u

-- What the two sides give agrees.
abbrev Agree : Bytes → List Bool × Table → List Bool × Manager → Type 0
Agree id spec code = (code.0 ≡ spec.0) × Represents id spec.1 code.1

call-IsUp : (id : Bytes) (c : Call) (m : Manager) → IsUp id m → IsUp id (call c m).1
unfolding call add_user update_user_password remove_user create_session validate_session
    invalidate_session
call-IsUp id (add now name hash) m h = ground arith
call-IsUp id (update now name hash) m h = ground arith
call-IsUp id (remove name) m h = ground arith
call-IsUp id (open_session clocks draw name info) m h = ground arith
call-IsUp id (check_session now session) m h = ground arith
call-IsUp id (close_session session) m h = ground arith

call-answer :
    (id : Bytes) (t : Table) (c : Call) (m : Manager)
    → Represents id t m
    → (call c m).0 ≡ (mean c t).0
unfolding call mean add_user update_user_password remove_user
call-answer id t (add now name hash) m h = ground (arith, h.running.up)
call-answer id t (update now name hash) m h = ground (arith, h.running.up)
call-answer id t (remove name) m h = ground (arith, h.running.up, h.running.cluster, h.table name)
call-answer id t (open_session clocks draw name info) m h = refl
call-answer id t (check_session now session) m h = refl
call-answer id t (close_session session) m h = refl

call-stored :
    (id : Bytes) (t : Table) (c : Call) (m : Manager)
    → Represents id t m
    → (u : Bytes) → stored id u (call c m).1 ≡ (mean c t).1 u
unfolding call mean update_user_password
call-stored id t (add now name hash) m h u =
    ground (arith, h.table u, stored-add_user id u m h.running now name hash)
call-stored id t (update now name hash) m h u =
    unfold add_user in ground (arith, h.table u, stored-add_user id u m h.running now name hash)
call-stored id t (remove name) m h u =
    ground (arith, h.table u, stored-remove_user id u m h.running name)
call-stored id t (open_session clocks draw name info) m h u =
    rw (stored-create_session id u m h.running clocks draw name info) (h.table u)
call-stored id t (check_session now session) m h u =
    rw (stored-validate_session id u m h.running now session) (h.table u)
call-stored id t (close_session session) m h u =
    rw (stored-invalidate_session id u m h.running session) (h.table u)

call-Represents :
    (id : Bytes) (t : Table) (c : Call) (m : Manager)
    → Represents id t m
    → Represents id (mean c t).1 (call c m).1
call-Represents id t c m h = record {
  running = call-IsUp id c m h.running;
  table = call-stored id t c m h;
}

run-Agree :
    (id : Bytes) (t : Table) (cs : List Call) (m : Manager)
    → Represents id t m
    → Agree id (mean_run cs t) (run cs m)
unfolding run mean_run
run-Agree id t [] m h = (refl, h)
run-Agree id t (c ∷ cs) m h =
    let later = run-Agree id (mean c t).1 cs (call c m).1 (call-Represents id t c m h) in
    (rw (call-answer id t c m h, later.0) refl, later.1)

-- Whether a password is the one of a stored hash.
abbrev pub opens : (Bytes → Bytes) → Bytes → Option Bytes → Bool
opens sha256 pass none = false
opens sha256 pass (some hash) =
    if is_empty hash then false else bytes_eq (hash_password sha256 pass) hash

-- On a node that runs, any sequence of calls that add, change and remove users and that open, check
-- and close sessions, with no clean-up between them, answers as a plain table from names to hashes
-- does, and afterwards a password is accepted for a user exactly if that table has a hash for the
-- user that is not empty and is the hash of the password.
pub run-refines :
    (sha256 : Bytes → Bytes) (id : Bytes) (t : Table) (m : Manager) (cs : List Call)
    (user pass : Bytes)
    → Represents id t m
    → ((run cs m).0 ≡ (mean_run cs t).0)
      × (validate sha256 user pass (run cs m).1 ≡ opens sha256 pass ((mean_run cs t).1 user))
unfolding validate verify_password
run-refines sha256 id t m cs user pass h =
    let agree = run-Agree id t cs m h in
    (agree.0, ground (arith, agree.1.running.up, agree.1.running.cluster, agree.1.table user))
