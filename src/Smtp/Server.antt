-- ===== src/Smtp/Server.antt =====
-- The listener of smtp/smtp_server.cpp: the circuit breaker, the admission of a client by the
-- connection manager and the rate limiter, and the end of its thread. Times are readings of the
-- steady clock in nanoseconds.
use email_server_backend.Base.{
  ℕ, suc, ◌-◌, ◌/◌, Bool, true, false, not, ◌&&◌, List, [], ◌∷◌, Bytes, ltb, leb, ◌==◌,
  if◌then◌else◌,
}
use email_server_backend.Core.ConnectionManager.{Manager, is_at_least, try_acquire, release}
use email_server_backend.Core.RateLimiter.{RateLimiter, allow_connection, release_connection}

-- The members of the server that change, with the two objects that it shares with the program.
-- `closed` has the sockets that the server closed, the latest first.
pub record Server : Type 0 where
  pub manager : Manager
  pub limiter : RateLimiter
  pub client_sockets : List ℕ
  pub closed : List ℕ
  pub recent_failures : ℕ
  pub last_failure_time : ℕ

abbrev pub failure_threshold : ℕ
failure_threshold = 10

abbrev pub is_minute_over : ℕ → Server → Bool
is_minute_over now s = ltb 60000 ((now - s.last_failure_time) / 1000000)

unfoldable pub is_circuit_breaker_tripped : ℕ → Server → Bool
is_circuit_breaker_tripped now s =
    if is_minute_over now s then false else leb failure_threshold s.recent_failures

unfoldable pub reset_circuit_breaker_if_expired : ℕ → Server → Server
reset_circuit_breaker_if_expired now s =
    if is_minute_over now s then record s { recent_failures = 0 } else s

unfoldable pub record_session_failure : ℕ → Server → Server
record_session_failure now s = record s {
  recent_failures = suc s.recent_failures;
  last_failure_time = now;
}

-- Whether the loop goes on to `accept`, and the server then. `within_limits` is the answer of
-- `checkResourceLimits`.
unfoldable pub may_accept : ℕ → Bool → Server → Bool × Server
unfolding is_circuit_breaker_tripped reset_circuit_breaker_if_expired
may_accept now within_limits s =
    let s' = reset_circuit_breaker_if_expired now s in
    (
      not (is_circuit_breaker_tripped now s')
          && (within_limits
              && not (is_at_least s'.manager.active_connections s'.manager.global_max)),
      s',
    )

-- Whether a thread is started for the client.
unfoldable pub admit : ℕ → ℕ → Bytes → Server → Bool × Server
admit now client ip s =
    let acquired = try_acquire now ip s.manager in
    let allowed = allow_connection now ip s.limiter in
    if not acquired.0
    then (false, record s { manager = acquired.1; closed = client ∷ s.closed })
    else if not allowed.0
    then (
      false,
      record s { manager = release ip acquired.1; limiter = allowed.1; closed = client ∷ s.closed },
    )
    else (
      true,
      record s {
        manager = acquired.1;
        limiter = allowed.1;
        client_sockets = client ∷ s.client_sockets;
      },
    )

-- How a thread ends: the handshake of SMTPS fails, the session returns, or it throws.
pub data SessionEnd : Type 0 where
  handshake_failed returned threw : SessionEnd

-- What the session's own `run`, which lets no exception out, does to the rate limiter: it counts
-- the connection once more, and gives one back unless it is refused. Where the handshake fails or
-- the constructor throws, there is no session.
unfoldable pub limit_session : ℕ → Bytes → SessionEnd → Server → Server
limit_session now ip returned s =
    let allowed = allow_connection now ip s.limiter in
    record s { limiter = (if allowed.0 then release_connection ip allowed.1 else allowed.1) }
limit_session now ip _ s = s

unfoldable pub remove_client : ℕ → List ℕ → List ℕ
remove_client client [] = []
remove_client client (c ∷ cs) =
    let rest = remove_client client cs in if c == client then rest else c ∷ rest

unfoldable pub end_thread : ℕ → ℕ → Bytes → SessionEnd → Server → Server
unfolding record_session_failure remove_client
end_thread now client ip handshake_failed s = record s {
  closed = client ∷ s.closed;
  client_sockets = remove_client client s.client_sockets;
}
end_thread now client ip returned s = record s {
  manager = release ip s.manager;
  client_sockets = remove_client client s.client_sockets;
}
end_thread now client ip threw s =
    let s' = record_session_failure now s in
    record s' {
      manager = release ip s'.manager;
      client_sockets = remove_client client s'.client_sockets;
    }

-- A client that is served before the next one comes.
pub record Client : Type 0 where
  pub socket : ℕ
  pub ip : Bytes
  pub accepted : ℕ
  pub begun : ℕ
  pub ended : ℕ
  pub outcome : SessionEnd

unfoldable pub serve_one : Client → Server → Server
serve_one c s =
    let r = admit c.accepted c.socket c.ip s in
    if r.0
    then end_thread c.ended c.socket c.ip c.outcome (limit_session c.begun c.ip c.outcome r.1)
    else r.1

unfoldable pub serve_clients : List Client → Server → Server
serve_clients [] s = s
serve_clients (c ∷ cs) s = serve_clients cs (serve_one c s)
