-- ===== src/Core/ConnectionLimits.antt =====
-- The limits of core/connection_manager.cpp between threads, and over a long time.
use email_server_backend.Base.{
  ℕ, suc, ◌-◌, ◌<◌, ◌≡◌, refl, ◌∙◌, true, false, arith, Bytes, bytes_eq, bytes_eq_refl, leb,
  if◌then◌else◌, some, lookup, insert, lookup-insert,
}
use email_server_backend.Integers.{pos}
use email_server_backend.Core.RateLimiter.{minutes}
use email_server_backend.Core.ConnectionManager.{
  IpConnection, Manager, or_new, has_room, access, acquire_ip, count_connection, try_acquire,
  connections_for_ip,
}

abbrev pub SameLimits : Manager → Manager → Type 0
SameLimits m m' = (m'.global_max ≡ m.global_max) × (m'.per_ip_max ≡ m.per_ip_max)

pub connections-insert :
    (ip j : Bytes) (c : IpConnection) (m : Manager)
    → connections_for_ip j (record m { ip_connections = insert ip c m.ip_connections })
      ≡ (if bytes_eq ip j then c.count else connections_for_ip j m)
unfolding connections_for_ip
connections-insert ip j c m = ground (arith, lookup-insert ip j c m.ip_connections)

pub found-count :
    (ip : Bytes) (m : Manager)
    → (or_new (lookup ip m.ip_connections)).count ≡ connections_for_ip ip m
unfolding connections_for_ip
found-count ip m = ground arith

pub acquire_ip-limits :
    (now : ℕ) (ip : Bytes) (m : Manager)
    → SameLimits m (acquire_ip now ip m).1
      × ((acquire_ip now ip m).1.active_connections ≡ m.active_connections)
unfolding acquire_ip
acquire_ip-limits now ip m = ground arith

-- Two threads that both read the global count before either of them changes it pass the limit: with
-- one place left, both connections are let in, and one more than the limit is counted.
pub acquire_race :
    (m : Manager) (k now now' : ℕ) (ip ip' : Bytes)
    → m.active_connections ≡ pos k
    → m.global_max ≡ suc k
    → (acquire_ip now ip m).0 ≡ true
    → (acquire_ip now' ip' (acquire_ip now ip m).1).0 ≡ true
    → let m' =
        count_connection (count_connection (acquire_ip now' ip' (acquire_ip now ip m).1).1) in
      (has_room m ≡ true) × (m'.active_connections ≡ pos (suc m'.global_max))
acquire_race m k now now' ip ip' e g h h' =
    let (limits, same) = acquire_ip-limits now ip m in
    let (limits', same') = acquire_ip-limits now' ip' (acquire_ip now ip m).1 in ground arith

access-stale :
    (now : ℕ) (c : IpConnection) → minutes 5 < now - c.last_access → (access now c).count ≡ 0
unfolding access
access-stale now c h = ground arith

-- An address whose last attempt is more than five minutes ago is counted anew: however many
-- connections it still has, the next one is let in, if the limits are not zero and there is room,
-- and is counted as its only one.
pub try_acquire-stale :
    (now : ℕ) (ip : Bytes) (m : Manager) (c : IpConnection)
    → lookup ip m.ip_connections ≡ some c
    → minutes 5 < now - c.last_access
    → 0 < m.per_ip_max
    → has_room m ≡ true
    → ((try_acquire now ip m).0 ≡ true) × (connections_for_ip ip (try_acquire now ip m).1 ≡ 1)
unfolding try_acquire acquire_ip connections_for_ip
try_acquire-stale now ip m c e late some_max room =
    let c' = access now c in
    let fresh = access-stale now c late in
    let closed : leb m.per_ip_max c'.count ≡ false = ground arith in
    let counted : IpConnection = record c' { count = suc c'.count } in
    let admitted : acquire_ip now ip m
        ≡ (true, record m { ip_connections = insert ip counted m.ip_connections }) =
      rw (e, closed, acquire_ip) refl in
    rw (room, admitted)
      (refl, connections-insert ip ip counted m ∙ rw (bytes_eq_refl ip, fresh) refl)
