-- ===== src/Core/RateLimiter.antt =====
-- core/rate_limiter.cpp. Times are readings of the steady clock in nanoseconds, and a counter's
-- first window starts at the clock's epoch, as a default std::chrono::time_point does.
use email_server_backend.Base.{
  ℕ, suc, ◌-◌, ◌*◌, Bool, true, List, [], ◌∷◌, Bytes, ltb, leb, ◌==◌, if◌then◌else◌, Option, none,
  some, Dict, lookup, insert,
}

abbrev pub conn_limit : ℕ
conn_limit = 30

abbrev pub cmd_limit : ℕ
cmd_limit = 120

abbrev pub auth_limit : ℕ
auth_limit = 5

abbrev pub minutes : ℕ → ℕ
minutes n = n * 60000000000

pub record Counter : Type 0 where
  pub count : ℕ
  pub window : ℕ

-- The sessions that commands are counted for are addresses, here numbers.
pub record RateLimiter : Type 0 where
  pub conn : Dict Counter
  pub cmd : List (ℕ × Counter)
  pub auth : Dict Counter

abbrev pub fresh : Counter
fresh = record { count = 0; window = 0 }

-- The counter of a call of operator[].
abbrev pub or_fresh : Option Counter → Counter
or_fresh none = fresh
or_fresh (some c) = c

-- A window that is over starts again, and the call is counted.
unfoldable pub count_call : ℕ → ℕ → Counter → Counter
count_call period now c =
    if ltb period (now - c.window)
    then record { count = 1; window = now }
    else record c { count = suc c.count }

unfoldable pub allow_connection : ℕ → Bytes → RateLimiter → Bool × RateLimiter
allow_connection now ip r =
    let c = count_call (minutes 1) now (or_fresh (lookup ip r.conn)) in
    (leb c.count conn_limit, record r { conn = insert ip c r.conn })

unfoldable pub lookup_key : ℕ → List (ℕ × Counter) → Option Counter
lookup_key k [] = none
lookup_key k ((j, c) ∷ m) = if j == k then some c else lookup_key k m

unfoldable pub insert_key : ℕ → Counter → List (ℕ × Counter) → List (ℕ × Counter)
insert_key k c [] = (k, c) ∷ []
insert_key k c ((j, e) ∷ m) =
    let rest = insert_key k c m in if j == k then (k, c) ∷ m else (j, e) ∷ rest

unfoldable pub allow_command : ℕ → ℕ → RateLimiter → Bool × RateLimiter
allow_command now key r =
    let c = count_call (minutes 1) now (or_fresh (lookup_key key r.cmd)) in
    (leb c.count cmd_limit, record r { cmd = insert_key key c r.cmd })

unfoldable pub record_auth_failure : ℕ → Bytes → RateLimiter → RateLimiter
record_auth_failure now ip r = record r {
  auth = insert ip (count_call (minutes 10) now (or_fresh (lookup ip r.auth))) r.auth;
}

unfoldable pub allow_auth : ℕ → Bytes → RateLimiter → Bool
allow_auth now ip r = elim (lookup ip r.auth) [
  | none ↦ true
  | some c ↦ if ltb (minutes 10) (now - c.window) then true else ltb c.count auth_limit
]

unfoldable pub release_connection : Bytes → RateLimiter → RateLimiter
release_connection ip r = elim (lookup ip r.conn) [
  | none ↦ r
  | some c ↦
      if ltb 0 c.count
      then record r { conn = insert ip (record c { count = c.count - 1 }) r.conn }
      else r
]
