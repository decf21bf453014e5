-- ===== src/Antispam/SpfPrefix.antt =====
-- The prefix length of a mechanism without a domain in `SpfParser::parse`
-- (antispam/spf_parser.cpp).
use email_server_backend.Base.{
  ◌≡◌, ◌≢◌, refl, inl, inr, [], ◌∷◌, ◌++◌, arith, Bytes, text, find, starts_with, bytes_eq, All,
  Option-cases, none,
}
use email_server_backend.Antispam.Results.{
  SpfQualifier, plus, minus, tilde, question, SpfMechanismType, ip4, ip6, a, mx, ptr, include,
  exists, all,
}
use email_server_backend.Antispam.SpfParser.{
  SpfError, throws, parse_qualifier, is_qualifier, mechanism_type, name_of, cidr_of,
  parse_mechanism, parse_term,
}
use email_server_backend.Antispam.SpfRoundTrip.{print_qualifier, print_type}

find_colon : (s : Bytes) → All (λ c. c ≢ b':') s → find (text ":") s ≡ none
unfolding find text starts_with
find_colon [] h = refl
find_colon (c ∷ s) (n, h) = ground (arith, find_colon s h)

name_of-slash :
    (t : SpfMechanismType) (s : Bytes)
    → All (λ c. c ≢ b':') s
    → mechanism_type (name_of (print_type t ++ b'/' ∷ s)) ≡ none
unfolding name_of mechanism_type print_type find text starts_with bytes_eq
name_of-slash ip4 s h = rw (find_colon s h, name_of) refl
name_of-slash ip6 s h = rw (find_colon s h, name_of) refl
name_of-slash a s h = rw (find_colon s h, name_of) refl
name_of-slash mx s h = rw (find_colon s h, name_of) refl
name_of-slash ptr s h = rw (find_colon s h, name_of) refl
name_of-slash include s h = rw (find_colon s h, name_of) refl
name_of-slash exists s h = rw (find_colon s h, name_of) refl
name_of-slash all s h = rw (find_colon s h, name_of) refl

parse_mechanism-slash :
    (q : SpfQualifier) (t : SpfMechanismType) (s : Bytes)
    → All (λ c. c ≢ b':') s
    → (e : SpfError) × (parse_mechanism q (print_type t ++ b'/' ∷ s) ≡ throws e)
unfolding parse_mechanism
parse_mechanism-slash q t s h = elim (Option-cases (cidr_of (print_type t ++ b'/' ∷ s))) [
  | inl c ↦ rw (c, parse_mechanism) (_, refl)
  | inr (cidr, c) ↦ rw (c, name_of-slash t s h, parse_mechanism) (_, refl)
]

-- A mechanism that has a prefix length and no domain, such as "a/24", makes the parser throw,
-- whatever its qualifier and its prefix length are.
pub parse_term-slash :
    (q : SpfQualifier) (t : SpfMechanismType) (s : Bytes)
    → All (λ c. c ≢ b':') s
    → (e : SpfError) × (parse_term (print_qualifier q ∷ (print_type t ++ b'/' ∷ s)) ≡ throws e)
unfolding parse_term parse_qualifier is_qualifier
parse_term-slash plus t s h = parse_mechanism-slash plus t s h
parse_term-slash minus t s h = parse_mechanism-slash minus t s h
parse_term-slash tilde t s h = parse_mechanism-slash tilde t s h
parse_term-slash question t s h = parse_mechanism-slash question t s h
