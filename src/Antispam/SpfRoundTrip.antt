-- ===== src/Antispam/SpfRoundTrip.antt =====
-- Records that are written as SPF writes them are read back by `SpfParser::parse` of
-- antispam/spf_parser.cpp.
use email_server_backend.Base.{
  ℕ, ◌≡◌, ◌≢◌, refl, sym, ◌∙◌, false, List, [], ◌∷◌, ◌++◌, map, arith, Bytes, text, find,
  starts_with, is_empty, is_space, bytes_eq, All, All-append, All-imp, append-nil, ◌<◌,
  append_assoc, none, some,
}
use email_server_backend.Integers.{negsuc}
use email_server_backend.Streams.{join_words, IsWord, words-join_words}
use email_server_backend.Antispam.Results.{
  SpfQualifier, plus, minus, tilde, question, SpfMechanismType, ip4, ip6, a, mx, ptr, include,
  exists, all, SpfMechanism, SpfRecord,
}
use email_server_backend.Antispam.SpfParser.{
  parsed, parse_qualifier, is_qualifier, mechanism_type, name_of, domain_of, cidr_of,
  parse_mechanism, parse_term, add_term, parse_terms, empty_record, parse,
}

abbrev pub print_qualifier : SpfQualifier → ℕ
print_qualifier plus = b'+'
print_qualifier minus = b'-'
print_qualifier tilde = b'~'
print_qualifier question = b'?'

unfoldable pub print_type : SpfMechanismType → Bytes
print_type ip4 = text "ip4"
print_type ip6 = text "ip6"
print_type a = text "a"
print_type mx = text "mx"
print_type ptr = text "ptr"
print_type include = text "include"
print_type exists = text "exists"
print_type all = text "all"

abbrev print_domain : Bytes → Bytes
print_domain [] = []
print_domain (c ∷ cs) = b':' ∷ c ∷ cs

unfoldable pub print_mechanism : SpfMechanism → Bytes
print_mechanism m = print_qualifier m.qualifier ∷ (print_type m.type ++ print_domain m.domain)

unfoldable pub print_record : List SpfMechanism → Bytes
print_record ms = text "v=spf1" ++ join_words (map print_mechanism ms)

-- The domain has no blank and no slash, and there is no prefix length.
abbrev pub IsPlain : SpfMechanism → Type 0
IsPlain m =
    (m.cidr ≡ negsuc 0) × All (λ c. is_space c ≡ false) m.domain × All (λ c. c ≢ b'/') m.domain

find_slash : (s : Bytes) → All (λ c. c ≢ b'/') s → find (text "/") s ≡ none
unfolding find text starts_with
find_slash [] h = refl
find_slash (c ∷ s) (n, h) = ground (arith, find_slash s h)

print_type-above : (t : SpfMechanismType) → All (λ c. b'/' < c) (print_type t)
unfolding print_type text
print_type-above ip4 = ground arith
print_type-above ip6 = ground arith
print_type-above a = ground arith
print_type-above mx = ground arith
print_type-above ptr = ground arith
print_type-above include = ground arith
print_type-above exists = ground arith
print_type-above all = ground arith

print_domain-All : (P : ℕ → Type 0) (d : Bytes) → P b':' → All P d → All P (print_domain d)
print_domain-All P [] h hs = tt
print_domain-All P (c ∷ d) h hs = (h, hs)

cidr_of-print :
    (t : SpfMechanismType) (d : Bytes)
    → All (λ c. c ≢ b'/') d
    → cidr_of (print_type t ++ print_domain d) ≡ some (negsuc 0)
unfolding cidr_of
cidr_of-print t d h =
    rw
      (
        find_slash (print_type t ++ print_domain d) (
            All-append (λ c. c ≢ b'/') (print_type t) (print_domain d)
              (All-imp (λ c above. ground arith) (print_type t) (print_type-above t))
              (print_domain-All (λ c. c ≢ b'/') d (ground arith) h)),
        cidr_of,
      )
      refl

name_of-print :
    (t : SpfMechanismType) (d : Bytes)
    → mechanism_type (name_of (print_type t ++ print_domain d)) ≡ some t
unfolding name_of mechanism_type print_type find text starts_with bytes_eq
name_of-print ip4 [] = refl
name_of-print ip4 (_ ∷ _) = refl
name_of-print ip6 [] = refl
name_of-print ip6 (_ ∷ _) = refl
name_of-print a [] = refl
name_of-print a (_ ∷ _) = refl
name_of-print mx [] = refl
name_of-print mx (_ ∷ _) = refl
name_of-print ptr [] = refl
name_of-print ptr (_ ∷ _) = refl
name_of-print include [] = refl
name_of-print include (_ ∷ _) = refl
name_of-print exists [] = refl
name_of-print exists (_ ∷ _) = refl
name_of-print all [] = refl
name_of-print all (_ ∷ _) = refl

domain_of-print :
    (t : SpfMechanismType) (d : Bytes) → domain_of (print_type t ++ print_domain d) ≡ d
unfolding domain_of print_type find text starts_with
domain_of-print ip4 [] = refl
domain_of-print ip4 (_ ∷ _) = refl
domain_of-print ip6 [] = refl
domain_of-print ip6 (_ ∷ _) = refl
domain_of-print a [] = refl
domain_of-print a (_ ∷ _) = refl
domain_of-print mx [] = refl
domain_of-print mx (_ ∷ _) = refl
domain_of-print ptr [] = refl
domain_of-print ptr (_ ∷ _) = refl
domain_of-print include [] = refl
domain_of-print include (_ ∷ _) = refl
domain_of-print exists [] = refl
domain_of-print exists (_ ∷ _) = refl
domain_of-print all [] = refl
domain_of-print all (_ ∷ _) = refl

parse_mechanism-print :
    (m : SpfMechanism)
    → IsPlain m
    → parse_mechanism m.qualifier (print_type m.type ++ print_domain m.domain) ≡ parsed m
unfolding parse_mechanism
parse_mechanism-print m (minus_one, blanks, slashes) =
    rw
      (
        cidr_of-print m.type m.domain slashes,
        name_of-print m.type m.domain,
        domain_of-print m.type m.domain,
        sym minus_one,
        parse_mechanism,
      )
      refl

add_term-qualified :
    (q : SpfQualifier) (rest : Bytes) (m : SpfMechanism) (rec : SpfRecord)
    → parse_mechanism q rest ≡ parsed m
    → add_term (print_qualifier q ∷ rest) rec
      ≡ parsed (record rec { mechanisms = rec.mechanisms ++ m ∷ [] })
unfolding add_term parse_term parse_qualifier is_qualifier starts_with text
add_term-qualified plus rest m rec e = rw (e, add_term) refl
add_term-qualified minus rest m rec e = rw (e, add_term) refl
add_term-qualified tilde rest m rec e = rw (e, add_term) refl
add_term-qualified question rest m rec e = rw (e, add_term) refl

add_term-print :
    (m : SpfMechanism) (rec : SpfRecord)
    → IsPlain m
    → add_term (print_mechanism m) rec
      ≡ parsed (record rec { mechanisms = rec.mechanisms ++ m ∷ [] })
unfolding print_mechanism
add_term-print m rec h = add_term-qualified m.qualifier _ m rec (parse_mechanism-print m h)

print_qualifier-word : (q : SpfQualifier) → is_space (print_qualifier q) ≡ false
unfolding is_space
print_qualifier-word plus = refl
print_qualifier-word minus = refl
print_qualifier-word tilde = refl
print_qualifier-word question = refl

print_mechanism-IsWord : (m : SpfMechanism) → IsPlain m → IsWord (print_mechanism m)
unfolding print_mechanism is_empty is_space
print_mechanism-IsWord m (minus_one, blanks, slashes) = (
  refl,
  (
    print_qualifier-word m.qualifier,
    All-append (λ c. is_space c ≡ false) (print_type m.type) (print_domain m.domain)
        (All-imp (λ c above. ground arith) (print_type m.type) (print_type-above m.type))
        (print_domain-All (λ c. is_space c ≡ false) m.domain refl blanks),
  ),
)

print-words : (ms : List SpfMechanism) → All IsPlain ms → All IsWord (map print_mechanism ms)
print-words [] h = tt
print-words (m ∷ ms) (h, hs) = (print_mechanism-IsWord m h, print-words ms hs)

parse_terms-print :
    (ms : List SpfMechanism) (rec : SpfRecord)
    → All IsPlain ms
    → parse_terms (map print_mechanism ms) rec
      ≡ parsed (record rec { mechanisms = rec.mechanisms ++ ms })
unfolding parse_terms
parse_terms-print [] rec h = rw (append-nil rec.mechanisms) refl
parse_terms-print (m ∷ ms) rec (h, hs) =
    rw (add_term-print m rec h, parse_terms)
      (parse_terms-print ms (record rec { mechanisms = rec.mechanisms ++ m ∷ [] }) hs
        ∙ rw (append_assoc rec.mechanisms (m ∷ []) ms) refl)

-- A record of mechanisms with their qualifiers and, where they have one, their domain is read back
-- as it was written, if the domains have no blank and no slash and no prefix length is given.
pub parse-print_record :
    (ms : List SpfMechanism)
    → All IsPlain ms
    → parse (print_record ms) ≡ parsed (record { mechanisms = ms; redirect = none; exp = none })
unfolding parse print_record starts_with text
parse-print_record ms h = rw (
  words-join_words (text "v=spf1") (map print_mechanism ms)
      (unfold text is_empty is_space in (refl, ground arith)) (print-words ms h),
  parse_terms-print ms empty_record h,
  parse,
)
