-- ===== src/Cluster/Loading.antt =====
-- `DistributedAuthManager::loadFromFile`. The library yaml-cpp gives the entries of the section
-- 'users', each with its password, if it has one.
use email_server_backend.Base.{ℕ, Bool, true, false, List, [], ◌∷◌, Bytes}
use email_server_backend.Cluster.Keys.{hash_password}
use email_server_backend.Cluster.Manager.{Manager}
use email_server_backend.Cluster.Users.{add_user}

-- An entry that is no text makes the conversion throw.
pub data Entry : Type 0 where
  no_password : Bytes → Entry
  with_password : Bytes → Bytes → Entry
  broken : Entry

pub data File : Type 0 where
  unreadable no_users : File
  users_of : List Entry → File

module _ (sha256 : Bytes → Bytes) (now : ℕ) where
  unfoldable pub load_entries : List Entry → Manager → Bool × Manager
  unfolding hash_password add_user
  load_entries [] m = (true, m)
  load_entries (Entry.no_password name ∷ es) m = load_entries es m
  load_entries (Entry.with_password name password ∷ es) m =
      load_entries es (add_user now name (hash_password sha256 password) m).1
  load_entries (Entry.broken ∷ es) m = (false, m)

  unfoldable pub load_from_file : File → Manager → Bool × Manager
  unfolding load_entries
  load_from_file File.unreadable m = (false, m)
  load_from_file File.no_users m = (false, m)
  load_from_file (File.users_of es) m = load_entries es m
