-- ===== src/Smtp/Session.antt =====
-- The state of smtp/smtp_session.h, and what a session reaches outside its class: the
-- configuration, the TLS policy, the clock, the TLS handshake, the authentication manager and
-- the mail store.
use email_server_backend.Base.{ℕ, ◌+◌, ◌-◌, Bool, not, ◌&&◌, List, Bytes, ltb}
use email_server_backend.Smtp.Link.{Link, Event, StoredMessage}

-- enum class SmtpState
pub data SmtpState : Type 0 where
  connected helo_ehlo auth mail_from rcpt_to in_data : SmtpState

-- How STARTTLS ends: `createSSL` gives no object, `SSL_accept` fails, `validateTlsConnection`
-- refuses the connection, one of these throws, or TLS is up.
pub data Handshake : Type 0 where
  no_ssl refused insecure crashed secured : Handshake

-- `authenticateSmtp(args, username)` with the new value of `username`, or an exception.
pub data AuthOutcome : Type 0 where
  answered : Bool → Bytes → AuthOutcome
  threw : AuthOutcome

-- `MailStore::store` returns an id, empty on failure, or throws.
pub data StoreOutcome : Type 0 where
  stored_as : Bytes → StoreOutcome
  store_threw : StoreOutcome

-- A session attempts at most one handshake, so its result is one value. The store answers by
-- what has happened so far. `now n` is the n-th reading of the steady clock, in seconds.
pub record Env : Type 0 where
  pub domain : Bytes
  pub max_message_size : ℕ
  pub smtp_timeout : ℕ
  pub data_timeout : ℕ
  pub tls_required : Bool
  pub start_tls_required : Bool
  pub now : ℕ → ℕ
  pub handshake : Handshake
  pub authenticate_smtp : Bytes → Bytes → AuthOutcome
  pub store : List Event → StoredMessage → StoreOutcome

-- class SmtpSession. `readings` counts the calls of the clock.
pub record Session : Type 0 where
  pub link : Link
  pub open link use *
  pub state : SmtpState
  pub last_activity : ℕ
  pub readings : ℕ
  pub authed : Bool
  pub username : Bytes
  pub helo_domain : Bytes
  pub peer_ip : Bytes
  pub sender : Bytes
  pub recipients : List Bytes

unfoldable pub tls_required_and_missing : Env → Session → Bool
tls_required_and_missing env s = env.tls_required && not s.tls_active

unfoldable pub start_tls_required_and_missing : Env → Session → Bool
start_tls_required_and_missing env s = env.start_tls_required && not s.tls_active

-- The switch of `isTimeoutExceeded`.
unfoldable pub timeout_seconds : Env → SmtpState → ℕ
timeout_seconds env SmtpState.connected = 60
timeout_seconds env SmtpState.in_data = env.data_timeout
timeout_seconds env _ = env.smtp_timeout

unfoldable pub is_timeout_exceeded : Env → Session → Bool
unfolding timeout_seconds
is_timeout_exceeded env s = ltb (timeout_seconds env s.state) (env.now s.readings - s.last_activity)

-- The call of the clock in `isTimeoutExceeded`, then the one in `updateActivity`.
unfoldable pub update_activity : Env → Session → Session
update_activity env s = record s {
  last_activity = env.now (s.readings + 1);
  readings = s.readings + 2;
}
