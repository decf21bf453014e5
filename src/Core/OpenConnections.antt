-- ===== src/Core/OpenConnections.antt =====
-- The limits of core/connection_manager.cpp and the connections that are open, over sequences of
-- calls.
use email_server_backend.Base.{
  ℕ, suc, ◌-◌, ◌≤◌, ◌<◌, ◌≡◌, ◌⊎◌, List, [], ◌∷◌, Bytes, bytes_eq, length, if◌then◌else◌, lookup,
}
use email_server_backend.Integers.{pos}
use email_server_backend.Core.RateLimiter.{minutes}
use email_server_backend.Core.ConnectionManager.{
  Manager, or_new, try_acquire, release, connections_for_ip,
}

-- The addresses of the open connections, one entry for each connection.
abbrev pub open_of : Bytes → List Bytes → ℕ
open_of ip [] = 0
open_of ip (k ∷ ks) = let rest = open_of ip ks in if bytes_eq k ip then suc rest else rest

abbrev pub close : Bytes → List Bytes → List Bytes
close ip [] = []
close ip (k ∷ ks) = let rest = close ip ks in if bytes_eq k ip then ks else k ∷ rest

-- The manager, and the connections that it let in and that are not over.
pub record Book : Type 0 where
  pub manager : Manager
  pub open_ips : List Bytes

pub data Request : Type 0 where
  acquires : ℕ → Bytes → Request
  releases : Bytes → Request

-- A connection that is let in is open until it is released.
abbrev pub answer : Request → Book → Book
answer (acquires now ip) b =
    let r = try_acquire now ip b.manager in
    record { manager = r.1; open_ips = (if r.0 then ip ∷ b.open_ips else b.open_ips) }
answer (releases ip) b = record { manager = release ip b.manager; open_ips = close ip b.open_ips }

abbrev pub serve : List Request → Book → Book
serve [] b = b
serve (q ∷ rest) b = serve rest (answer q b)

-- An address is tried while none of its connections is open, or at most five minutes after its
-- last try; and only an open connection is released.
abbrev pub IsPrompt : Request → Book → Type 0
IsPrompt (acquires now ip) b =
    (open_of ip b.open_ips ≡ 0)
    ⊎ (now - (or_new (lookup ip b.manager.ip_connections)).last_access ≤ minutes 5)
IsPrompt (releases ip) b = 0 < open_of ip b.open_ips

abbrev pub ArePrompt : List Request → Book → Type 0
ArePrompt [] b = Unit
ArePrompt (q ∷ rest) b = IsPrompt q b × ArePrompt rest (answer q b)

-- The counts are those of the open connections, and are within the limits.
pub record IsExact (b : Book) : Type 0 where
  pub all_counted : b.manager.active_connections ≡ pos (length b.open_ips)
  pub within : length b.open_ips ≤ b.manager.global_max
  pub each_counted : (ip : Bytes) → connections_for_ip ip b.manager ≡ open_of ip b.open_ips
  pub each_within : (ip : Bytes) → open_of ip b.open_ips ≤ b.manager.per_ip_max
