-- ===== src/Core/Tests.antt =====
-- The theorems on the rate limiter at concrete calls.
use email_server_backend.Base.{
  ◌≡◌, ◌↔◌, ◌≤◌, refl, List, true, false, [], ◌∷◌, arith, text, none, some, lookup, insert,
  bytes_eq,
}
use email_server_backend.Core.RateLimiter.{minutes, Counter, RateLimiter, lookup_key}
use email_server_backend.Core.TlsEnforcement.{
  TlsEnforcement, TlsVersions, Connection, set_min_tls_version, set_tls_required,
  set_require_start_tls, validate_tls_connection, allow_plaintext,
}
use email_server_backend.Core.TlsLaws.{IsStrong, set_min_tls_version-validate}
use email_server_backend.Integers.{pos}
use email_server_backend.Core.ConnectionManager.{Manager, access, acquire_ip}
use email_server_backend.Core.OpenConnections.{Book, Request, acquires, releases}

-- The session 7 has used 119 commands, and one client 29 connections.
abbrev used : Counter
used = record { count = 119; window = minutes 20 }

abbrev visitor : Counter
visitor = record { count = 29; window = minutes 20 }

abbrev limiter : RateLimiter
limiter = record { conn = (text "ip", visitor) ∷ []; cmd = (7, used) ∷ []; auth = [] }

used_up : lookup_key 7 limiter.cmd ≡ some used
unfolding lookup_key
used_up = refl

nobody_failed : lookup (text "ip") limiter.auth ≡ none
unfolding lookup
nobody_failed = refl

visitor_is_known : lookup (text "ip") limiter.conn ≡ some visitor
unfolding lookup text bytes_eq
visitor_is_known = refl

-- One of two places is left, and the address had one connection a quarter of an hour ago.
abbrev manager : Manager
manager = record {
  active_connections = pos 1;
  global_max = 2;
  per_ip_max = 1;
  ip_connections = (text "ip", record { count = 1; last_access = minutes 5 }) ∷ [];
}

abbrev book : Book
book = record { manager = manager; open_ips = text "ip" ∷ [] }

abbrev calls : List Request
calls = acquires (minutes 20) (text "a") ∷ releases (text "a") ∷ releases (text "ip") ∷ []

abbrev first_acquired : Manager
first_acquired = (acquire_ip (minutes 20) (text "a") manager).1

first_is_let_in : (acquire_ip (minutes 20) (text "a") manager).0 ≡ true
unfolding acquire_ip access lookup text bytes_eq
first_is_let_in = refl

second_is_let_in : (acquire_ip (minutes 20) (text "b") first_acquired).0 ≡ true
unfolding acquire_ip access lookup insert text bytes_eq
second_is_let_in = refl

address_is_known :
    lookup (text "ip") manager.ip_connections ≡ some (record { count = 1; last_access = minutes 5 })
unfolding lookup text bytes_eq
address_is_known = refl

-- The numbers of OpenSSL.
abbrev openssl : TlsVersions
openssl = record { tls1 = 0x301; tls1_1 = 0x302; tls1_2 = 0x303 }

abbrev unset : TlsEnforcement
unset = record { tls_required = true; require_start_tls = true; min_tls_version = 0 }

abbrev modern : Connection
modern = record { version = 0x304; cipher_bits = some 256 }

accepts_modern :
    ((validate_tls_connection (record unset { min_tls_version = 0x303 }) (some modern) ≡ true)
      ↔ IsStrong 0x303 modern)
    × ((1 ≤ 3) × (3 ≤ 3))
unfolding set_min_tls_version
accepts_modern =
    set_min_tls_version-validate openssl 3 unset (record unset { min_tls_version = 0x303 }) modern
      (omega arith) (omega arith) (omega arith) refl

-- With no minimum nothing is accepted.
nothing_accepted : validate_tls_connection unset (some modern) ≡ false
unfolding validate_tls_connection
nothing_accepted = refl

-- Port 587 is closed to plain text only where STARTTLS is required as well.
submission_open :
    allow_plaintext (set_require_start_tls false (set_tls_required true unset)) 587 ≡ true
unfolding allow_plaintext set_require_start_tls set_tls_required
submission_open = refl
