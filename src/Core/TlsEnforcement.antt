-- ===== src/Core/TlsEnforcement.antt =====
-- core/tls_enforcement.cpp. The numbers of the protocol versions are those of OpenSSL.
use email_server_backend.Base.{
  ℕ, Bool, true, false, not, ◌&&◌, ◌||◌, ltb, ◌==◌, if◌then◌else◌, Option, none, some,
}

pub record TlsEnforcement : Type 0 where
  pub tls_required : Bool
  pub require_start_tls : Bool
  pub min_tls_version : ℕ

-- TLS1_VERSION, TLS1_1_VERSION and TLS1_2_VERSION.
pub record TlsVersions : Type 0 where
  pub tls1 : ℕ
  pub tls1_1 : ℕ
  pub tls1_2 : ℕ

-- What OpenSSL says of a connection: its version, and the bits of its cipher, if it has one.
pub record Connection : Type 0 where
  pub version : ℕ
  pub cipher_bits : Option ℕ

unfoldable pub set_tls_required : Bool → TlsEnforcement → TlsEnforcement
set_tls_required required t = record t { tls_required = required }

-- `none` is an exception.
unfoldable pub set_min_tls_version : TlsVersions → ℕ → TlsEnforcement → Option TlsEnforcement
set_min_tls_version known version t =
    if version == 1
    then some (record t { min_tls_version = known.tls1 })
    else if version == 2
    then some (record t { min_tls_version = known.tls1_1 })
    else if version == 3
    then some (record t { min_tls_version = known.tls1_2 })
    else none

unfoldable pub set_require_start_tls : Bool → TlsEnforcement → TlsEnforcement
set_require_start_tls require t = record t { require_start_tls = require }

abbrev weak : Option ℕ → Bool
weak none = false
weak (some bits) = ltb bits 128

-- `none` is a null pointer.
unfoldable pub validate_tls_connection : TlsEnforcement → Option Connection → Bool
validate_tls_connection t none = false
validate_tls_connection t (some c) =
    if t.min_tls_version == 0
    then false
    else if ltb c.version t.min_tls_version
    then false
    else not (weak c.cipher_bits)

unfoldable pub allow_plaintext : TlsEnforcement → ℕ → Bool
allow_plaintext t port =
    if port == 993 || port == 465
    then false
    else if t.tls_required
    then (if port == 25 || port == 143
        then true
        else if port == 587 && t.require_start_tls
        then false
        else true)
    else true
