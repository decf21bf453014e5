-- ===== src/Core/RateLimits.antt =====
-- What the limits of core/rate_limiter.cpp promise over sequences of calls.
use email_server_backend.Base.{
  ℕ, suc, ◌+◌, ◌-◌, ◌≤◌, ◌<◌, ◌≡◌, refl, ◌∙◌, ◌⊎◌, inl, inr, true, false, ◌&&◌, List, [], ◌∷◌,
  arith, Bytes, bytes_eq_refl, length, All, Bool-cases, ltb, leb, leb_iff, ◌==◌, if◌then◌else◌,
  none, some, lookup, lookup-insert,
}
use email_server_backend.Core.RateLimiter.{
  conn_limit, cmd_limit, auth_limit, minutes, Counter, RateLimiter, fresh, or_fresh, count_call,
  allow_connection, lookup_key, insert_key, allow_command, record_auth_failure, allow_auth,
  release_connection,
}

-- A call: its time and its session.
abbrev pub commands_allowed : ℕ → List (ℕ × ℕ) → RateLimiter → ℕ
commands_allowed key [] r = 0
commands_allowed key ((now, k) ∷ calls) r =
    let step = allow_command now k r in
    let rest = commands_allowed key calls step.1 in if k == key && step.0 then suc rest else rest

lookup_key-insert_key :
    (k j : ℕ) (c : Counter) (m : List (ℕ × Counter))
    → lookup_key j (insert_key k c m) ≡ (if k == j then some c else lookup_key j m)
unfolding lookup_key insert_key
lookup_key-insert_key k j c [] = refl
lookup_key-insert_key k j c ((i, e) ∷ m) = ground (arith, lookup_key-insert_key k j c m)

-- Inside its window a counter goes up by one.
count_call-open :
    (period now : ℕ) (c : Counter)
    → now ≤ c.window + period
    → count_call period now c ≡ record c { count = suc c.count }
unfolding count_call
count_call-open period now c h = ground arith

count_call-first :
    (period now : ℕ)
    → period < now
    → count_call period now fresh ≡ record { count = 1; window = now }
unfolding count_call
count_call-first period now h = ground arith

allow_command-counter :
    (now k key : ℕ) (r : RateLimiter) (c : Counter)
    → lookup_key key r.cmd ≡ some c
    → now ≤ c.window + minutes 1
    → ((k == key) ≡ true)
        × ((allow_command now k r).0 ≡ leb (suc c.count) cmd_limit)
        × (lookup_key key (allow_command now k r).1.cmd ≡ some (record c { count = suc c.count }))
      ⊎ ((k == key) ≡ false) × (lookup_key key (allow_command now k r).1.cmd ≡ some c)
unfolding allow_command
allow_command-counter now k key r c e h = elim (Bool-cases (k == key)) [
  | inr other ↦ inr (
    other,
    lookup_key-insert_key k key (count_call (minutes 1) now (or_fresh (lookup_key k r.cmd))) r.cmd
        ∙ rw other e,
  )
  | inl same ↦
      let there : lookup_key k r.cmd ≡ some c = ground (arith, e) in
      let up : count_call (minutes 1) now (or_fresh (lookup_key k r.cmd))
          ≡ record c { count = suc c.count } =
        rw there (count_call-open (minutes 1) now c h) in
      inl (
        same,
        rw up refl,
        lookup_key-insert_key k key (count_call (minutes 1) now (or_fresh (lookup_key k r.cmd)))
              r.cmd
            ∙ rw (same, up) refl,
      )
]

-- In a window that has begun, of a counter that stands at `count`, a session has no more commands
-- allowed than the limit leaves it, whatever calls other sessions make in between.
pub commands_allowed-bound :
    (key : ℕ) (calls : List (ℕ × ℕ)) (r : RateLimiter) (c : Counter)
    → lookup_key key r.cmd ≡ some c
    → All (λ (now, k). now ≤ c.window + minutes 1) calls
    → commands_allowed key calls r ≤ cmd_limit - c.count
commands_allowed-bound key [] r c e h = omega arith
commands_allowed-bound key ((now, k) ∷ calls) r c e (early, h) =
    let r' = (allow_command now k r).1 in
    elim (allow_command-counter now k key r c e early) [
      | inr (other, kept) ↦ rw other (commands_allowed-bound key calls r' c kept h)
      | inl (same, answered, up) ↦
          let rest = commands_allowed-bound key calls r' (record c { count = suc c.count }) up h in
          rw (same, answered) (ground (arith, rest))
    ]

-- The failures of an address, at their times.
abbrev pub record_failures : Bytes → List ℕ → RateLimiter → RateLimiter
record_failures ip [] r = r
record_failures ip (now ∷ times) r = record_failures ip times (record_auth_failure now ip r)

zero_add : (n : ℕ) → 0 + n ≡ n
zero_add n = omega arith

add_one : (n : ℕ) → n + 1 ≡ suc n
add_one n = omega arith

add_suc_right : (m n : ℕ) → m + suc n ≡ suc m + n
add_suc_right m n = omega arith

failures-counter :
    (ip : Bytes) (times : List ℕ) (r : RateLimiter) (c : Counter)
    → lookup ip r.auth ≡ some c
    → All (λ now. now ≤ c.window + minutes 10) times
    → lookup ip (record_failures ip times r).auth
      ≡ some (record c { count = length times + c.count })
unfolding record_auth_failure
failures-counter ip [] r c e h = rw (zero_add c.count) e
failures-counter ip (now ∷ times) r c e (early, h) =
    failures-counter ip times (record_auth_failure now ip r) (record c { count = suc c.count })
      (lookup-insert ip ip (count_call (minutes 10) now (or_fresh (lookup ip r.auth))) r.auth
        ∙ rw (bytes_eq_refl ip, e, count_call-open (minutes 10) now c early) refl)
      h
    ∙ rw (add_suc_right (length times) c.count) refl

-- An address whose first failure starts a window may authenticate in it exactly as long as it has
-- fewer than five failures, and again when the ten minutes are over.
pub allow_auth-record_failures :
    (ip : Bytes) (first : ℕ) (times : List ℕ) (now : ℕ) (r : RateLimiter)
    → lookup ip r.auth ≡ none
    → minutes 10 < first
    → All (λ t. t ≤ first + minutes 10) times
    → allow_auth now ip (record_failures ip (first ∷ times) r)
      ≡ (if ltb (minutes 10) (now - first) then true else ltb (suc (length times)) auth_limit)
unfolding allow_auth record_auth_failure
allow_auth-record_failures ip first times now r e late h =
    let c : Counter = record { count = 1; window = first } in
    let begun : lookup ip (record_auth_failure first ip r).auth ≡ some c =
      lookup-insert ip ip (count_call (minutes 10) first (or_fresh (lookup ip r.auth))) r.auth
      ∙ rw (bytes_eq_refl ip, e, count_call-first (minutes 10) first late) refl in
    rw (failures-counter ip times (record_auth_failure first ip r) c begun h, allow_auth)
      (rw (add_one (length times)) refl)

allow_connection-counter :
    (now : ℕ) (ip : Bytes) (r : RateLimiter) (c : Counter)
    → lookup ip r.conn ≡ some c
    → now ≤ c.window + minutes 1
    → ((allow_connection now ip r).0 ≡ leb (suc c.count) conn_limit)
      × (lookup ip (allow_connection now ip r).1.conn ≡ some (record c { count = suc c.count }))
unfolding allow_connection
allow_connection-counter now ip r c e h =
    let up = count_call-open (minutes 1) now c h in
    (
      rw (e, up) refl,
      lookup-insert ip ip (count_call (minutes 1) now (or_fresh (lookup ip r.conn))) r.conn
          ∙ rw (bytes_eq_refl ip, e, up) refl,
    )

release_connection-counter :
    (ip : Bytes) (r : RateLimiter) (n w : ℕ)
    → lookup ip r.conn ≡ some (record { count = suc n; window = w })
    → lookup ip (release_connection ip r).conn ≡ some (record { count = n; window = w })
unfolding release_connection
release_connection-counter ip r n w e =
    let positive : ltb 0 (suc n) ≡ true = ground arith in
    let before : suc n - 1 ≡ n = omega arith in
    rw (e, release_connection, positive)
      (lookup-insert ip ip (record { count = suc n - 1; window = w }) r.conn
        ∙ rw (bytes_eq_refl ip, before) refl)

-- Clients that connect and leave again, one after the other, at the given times: how many are let
-- in.
abbrev pub visits_allowed : Bytes → List ℕ → RateLimiter → ℕ
visits_allowed ip [] r = 0
visits_allowed ip (now ∷ times) r =
    let step = allow_connection now ip r in
    let rest = visits_allowed ip times (release_connection ip step.1) in
    if step.0 then suc rest else rest

-- A release takes a connection off the count of its minute: an address that is below the limit may
-- connect and leave in that minute as often as it likes.
pub visits_allowed-length :
    (ip : Bytes) (times : List ℕ) (r : RateLimiter) (c : Counter)
    → lookup ip r.conn ≡ some c
    → c.count < conn_limit
    → All (λ now. now ≤ c.window + minutes 1) times
    → visits_allowed ip times r ≡ length times
visits_allowed-length ip [] r c e few h = refl
visits_allowed-length ip (now ∷ times) r c e few (early, h) =
    let (answered, up) = allow_connection-counter now ip r c e early in
    let r' = (allow_connection now ip r).1 in
    let rest =
      visits_allowed-length ip times (release_connection ip r') c
        (release_connection-counter ip r' c.count c.window up) few h in
    rw (answered, (leb_iff (suc c.count) conn_limit).1 few, rest) refl
