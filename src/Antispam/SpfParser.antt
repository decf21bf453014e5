-- ===== src/Antispam/SpfParser.antt =====
-- `SpfParser::parse` of antispam/spf_parser.cpp.
use email_server_backend.Base.{
  ℕ, suc, Bool, ◌||◌, List, [], ◌∷◌, ◌++◌, Bytes, text, find, starts_with, bytes_eq, drop, take,
  ◌==◌, if◌then◌else◌, Option, none, some,
}
use email_server_backend.Integers.{ℤ, negsuc, stoi}
use email_server_backend.Streams.{words}
use email_server_backend.Antispam.Results.{
  SpfQualifier, plus, minus, tilde, question, SpfMechanismType, ip4, ip6, a, mx, ptr, include,
  exists, all, SpfMechanism, SpfRecord,
}

-- The exceptions: "Invalid SPF", "Unknown mechanism", and those of std::stoi.
pub data SpfError : Type 0 where
  invalid_spf unknown_mechanism bad_number : SpfError

pub data Parsed (A : Type 0) : Type 0 where
  parsed : A → Parsed A
  throws : SpfError → Parsed A

unfoldable pub parse_qualifier : ℕ → SpfQualifier
parse_qualifier c =
    if c == b'+'
    then plus
    else if c == b'-'
    then minus
    else if c == b'~'
    then tilde
    else if c == b'?'
    then question
    else plus

unfoldable pub is_qualifier : ℕ → Bool
is_qualifier c = c == b'+' || c == b'-' || c == b'~' || c == b'?'

unfoldable pub mechanism_type : Bytes → Option SpfMechanismType
mechanism_type name =
    if bytes_eq name (text "ip4")
    then some ip4
    else if bytes_eq name (text "ip6")
    then some ip6
    else if bytes_eq name (text "a")
    then some a
    else if bytes_eq name (text "mx")
    then some mx
    else if bytes_eq name (text "ptr")
    then some ptr
    else if bytes_eq name (text "include")
    then some include
    else if bytes_eq name (text "exists")
    then some exists
    else if bytes_eq name (text "all")
    then some all
    else none

-- term.substr(0, colon), and term.substr(colon + 1) where there is a colon.
unfoldable pub name_of : Bytes → Bytes
name_of term = elim (find (text ":") term) [ none ↦ term | some colon ↦ take colon term ]

unfoldable pub domain_of : Bytes → Bytes
domain_of term = elim (find (text ":") term) [ none ↦ [] | some colon ↦ drop (suc colon) term ]

-- The prefix length, -1 where there is no slash; `none` is an exception of std::stoi.
unfoldable pub cidr_of : Bytes → Option ℤ
cidr_of term = elim (find (text "/") term) [
  | none ↦ some (negsuc 0)
  | some slash ↦ stoi (drop (suc slash) term)
]

-- A term whose qualifier is read and removed.
unfoldable pub parse_mechanism : SpfQualifier → Bytes → Parsed SpfMechanism
parse_mechanism q term = elim (cidr_of term) [
  | none ↦ throws bad_number
  | some cidr ↦ elim (mechanism_type (name_of term)) [
    | none ↦ throws unknown_mechanism
    | some t ↦ parsed (record { qualifier = q; type = t; domain = domain_of term; cidr = cidr })
  ]
]

unfoldable pub parse_term : Bytes → Parsed SpfMechanism
parse_term [] = parse_mechanism plus []
parse_term (c ∷ cs) = parse_mechanism (parse_qualifier c) (if is_qualifier c then cs else c ∷ cs)

-- One turn of the loop over the terms.
unfoldable pub add_term : Bytes → SpfRecord → Parsed SpfRecord
add_term term rec =
    if starts_with (text "redirect=") term
    then parsed (record rec { redirect = some (drop 9 term) })
    else if starts_with (text "exp=") term
    then parsed (record rec { exp = some (drop 4 term) })
    else elim (parse_term term) [
      | throws e ↦ throws e
      | parsed mech ↦ parsed (record rec { mechanisms = rec.mechanisms ++ mech ∷ [] })
    ]

unfoldable pub parse_terms : List Bytes → SpfRecord → Parsed SpfRecord
parse_terms [] rec = parsed rec
parse_terms (term ∷ terms) rec = elim (add_term term rec) [
  | throws e ↦ throws e
  | parsed rec' ↦ parse_terms terms rec'
]

abbrev pub empty_record : SpfRecord
empty_record = record { mechanisms = []; redirect = none; exp = none }

unfoldable pub parse : Bytes → Parsed SpfRecord
parse txt =
    if starts_with (text "v=spf1") txt
    then parse_terms (drop 1 (words txt)) empty_record
    else throws invalid_spf
