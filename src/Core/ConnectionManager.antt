-- ===== src/Core/ConnectionManager.antt =====
-- core/connection_manager.cpp. The limits are taken from 0 on, times are in nanoseconds. A call of
-- `tryAcquireConnection` has three steps that other threads may run between: it reads the global
-- count, counts the connection of its address under the mutex, and counts it globally.
use email_server_backend.Base.{
  ℕ, zero, suc, ◌-◌, Bool, true, false, not, Bytes, ltb, leb, if◌then◌else◌, Option, none, some,
  Dict, lookup, insert,
}
use email_server_backend.Integers.{ℤ, pos, negsuc}
use email_server_backend.Core.RateLimiter.{minutes}

pub record IpConnection : Type 0 where
  pub count : ℕ
  pub last_access : ℕ

pub record Manager : Type 0 where
  pub active_connections : ℤ
  pub global_max : ℕ
  pub per_ip_max : ℕ
  pub ip_connections : Dict IpConnection

abbrev pub increment : ℤ → ℤ
increment (pos n) = pos (suc n)
increment (negsuc zero) = pos 0
increment (negsuc (suc n)) = negsuc n

abbrev pub decrement : ℤ → ℤ
decrement (pos zero) = negsuc 0
decrement (pos (suc n)) = pos n
decrement (negsuc n) = negsuc (suc n)

abbrev pub is_at_least : ℤ → ℕ → Bool
is_at_least (pos n) max = leb max n
is_at_least (negsuc n) max = false

abbrev pub or_new : Option IpConnection → IpConnection
or_new none = record { count = 0; last_access = 0 }
or_new (some c) = c

-- The first step.
abbrev pub has_room : Manager → Bool
has_room m = not (is_at_least m.active_connections m.global_max)

-- An entry that nothing was acquired for in five minutes starts again.
unfoldable pub access : ℕ → IpConnection → IpConnection
access now c =
    if ltb (minutes 5) (now - c.last_access)
    then record { count = 0; last_access = now }
    else record c { last_access = now }

-- The second step, under the mutex.
unfoldable pub acquire_ip : ℕ → Bytes → Manager → Bool × Manager
acquire_ip now ip m =
    let c = access now (or_new (lookup ip m.ip_connections)) in
    if leb m.per_ip_max c.count
    then (false, record m { ip_connections = insert ip c m.ip_connections })
    else (
      true,
      record m { ip_connections = insert ip (record c { count = suc c.count }) m.ip_connections },
    )

-- The third step.
abbrev pub count_connection : Manager → Manager
count_connection m = record m { active_connections = increment m.active_connections }

unfoldable pub try_acquire : ℕ → Bytes → Manager → Bool × Manager
try_acquire now ip m =
    let r = acquire_ip now ip m in
    if has_room m then (if r.0 then (true, count_connection r.1) else (false, r.1)) else (false, m)

unfoldable pub release : Bytes → Manager → Manager
release ip m =
    let m' = record m { active_connections = decrement m.active_connections } in
    elim (lookup ip m.ip_connections) [
      | none ↦ m'
      | some c ↦
          if ltb 0 c.count
          then record m' {
            ip_connections = insert ip (record c { count = c.count - 1 }) m.ip_connections;
          }
          else m'
    ]

unfoldable pub connections_for_ip : Bytes → Manager → ℕ
connections_for_ip ip m = elim (lookup ip m.ip_connections) [ none ↦ 0 | some c ↦ c.count ]
