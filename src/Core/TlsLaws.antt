-- ===== src/Core/TlsLaws.antt =====
-- Which connections core/tls_enforcement.cpp accepts.
use email_server_backend.Base.{ℕ, ◌≤◌, ◌<◌, ◌≡◌, ◌↔◌, true, arith, Option, none, some}
use email_server_backend.Core.TlsEnforcement.{
  TlsEnforcement, TlsVersions, Connection, set_min_tls_version, validate_tls_connection,
}

abbrev pub StrongCipher : Option ℕ → Type 0
StrongCipher none = Unit
StrongCipher (some bits) = 128 ≤ bits

-- At least this version, and no cipher below 128 bits.
abbrev pub IsStrong : ℕ → Connection → Type 0
IsStrong version c = (version ≤ c.version) × StrongCipher c.cipher_bits

validate-IsStrong :
    (t : TlsEnforcement) (version : ℕ) (cipher : Option ℕ)
    → 0 < t.min_tls_version
    → let c : Connection = record { version = version; cipher_bits = cipher } in
      (validate_tls_connection t (some c) ≡ true) ↔ IsStrong t.min_tls_version c
unfolding validate_tls_connection
validate-IsStrong t version none h = ground arith
validate-IsStrong t version (some bits) h = ground arith

set_min_tls_version-pos :
    (known : TlsVersions) (setting : ℕ) (t t' : TlsEnforcement)
    → 0 < known.tls1
    → 0 < known.tls1_1
    → 0 < known.tls1_2
    → set_min_tls_version known setting t ≡ some t'
    → 0 < t'.min_tls_version
unfolding set_min_tls_version
set_min_tls_version-pos known setting t t' a b d e = ground arith

-- Once the minimum was set, a connection is accepted exactly if its version is at least that one
-- and its cipher, if it has one, has 128 bits or more; and the setting was 1, 2 or 3.
pub set_min_tls_version-validate :
    (known : TlsVersions) (setting : ℕ) (t t' : TlsEnforcement) (c : Connection)
    → 0 < known.tls1
    → 0 < known.tls1_1
    → 0 < known.tls1_2
    → set_min_tls_version known setting t ≡ some t'
    → ((validate_tls_connection t' (some c) ≡ true) ↔ IsStrong t'.min_tls_version c)
      × ((1 ≤ setting) × (setting ≤ 3))
unfolding set_min_tls_version
set_min_tls_version-validate known setting t t' c a b d e = (
  validate-IsStrong t' c.version c.cipher_bits (set_min_tls_version-pos known setting t t' a b d e),
  (ground arith, ground arith),
)
