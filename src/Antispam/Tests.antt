-- ===== src/Antispam/Tests.antt =====
-- Tests of the sender authentication on concrete records, and its theorems at concrete input.
use email_server_backend.Base.{
  ◌+◌, ◌≤◌, ◌≡◌, refl, true, false, List, [], ◌∷◌, ◌++◌, arith, Bytes, text, find, starts_with,
  bytes_eq, is_empty, is_space, substr, length, All, none, some, lookup, insert, lower, to_lower,
}
use email_server_backend.Integers.{pos, negsuc}
use email_server_backend.Streams.{split, words, first_word}
use email_server_backend.Antispam.Results.{
  minus, plus, a, all, SpfMechanism, SpfResult, SpfResultCode, SpfCheckResult,
}
use email_server_backend.Antispam.SpfParser.{
  parsed, parse_qualifier, is_qualifier, mechanism_type, name_of, domain_of, cidr_of,
  parse_mechanism, parse_term, add_term, parse_terms, parse,
}
use email_server_backend.Antispam.SpfEvaluator.{
  SpfAnswer, spf_records, decide_records, evaluate_record, first_all, is_all, map_q, max_lookups,
  evaluate, strip, ends_with_byte, cast_result, checked_domain, check,
}
use email_server_backend.Antispam.Dmarc.{
  DmarcInput, parse_tags, add_tags, add_tag, remove_spaces, tag_or, pct_of,
}
use email_server_backend.Antispam.SpfBounds.{evaluate-bounds}
use email_server_backend.Antispam.SpfRoundTrip.{IsPlain, print_record, parse-print_record}

abbrev deny_all : Bytes → List Bytes
deny_all domain = text "v=spf1 -all" ∷ []

abbrev looping : Bytes → List Bytes
looping domain = text "v=spf1 redirect=x" ∷ []

evaluate-bounds_example :
    (r : SpfAnswer) × (evaluate looping 11 0 (text "x") ≡ some r)
    × (length r.looked_up + 0 ≤ max_lookups)
evaluate-bounds_example = evaluate-bounds looping 11 0 (text "x") (omega arith) (omega arith)

abbrev denied : SpfAnswer
denied = record { code = parsed SpfResultCode.fail; looked_up = text "b" ∷ [] }

abbrev reported : SpfCheckResult
reported = record { result = SpfResult.pass; smtp_mail_from = text "a@b" }

abbrev checked : Bytes
checked = checked_domain (strip (text "<a@b>")) []

evaluates_deny_all : evaluate deny_all 1 0 checked ≡ some denied
unfolding evaluate decide_records spf_records parse parse_terms add_term parse_term parse_mechanism
    parse_qualifier is_qualifier cidr_of name_of domain_of mechanism_type words first_word text
    bytes_eq is_empty is_space find starts_with evaluate_record first_all is_all map_q
    checked_domain strip ends_with_byte substr
evaluates_deny_all = refl

check-deny_all : check deny_all 1 (text "<a@b>") [] ≡ some (parsed reported)
unfolding check evaluate decide_records spf_records parse parse_terms add_term parse_term
    parse_mechanism parse_qualifier is_qualifier cidr_of name_of domain_of mechanism_type words
    first_word text bytes_eq is_empty is_space find starts_with evaluate_record first_all is_all
    map_q checked_domain strip ends_with_byte substr cast_result
check-deny_all = refl

abbrev mechanisms : List SpfMechanism
mechanisms =
    record { qualifier = plus; type = a; domain = text "x.y"; cidr = negsuc 0 }
    ∷ record { qualifier = minus; type = all; domain = []; cidr = negsuc 0 }
    ∷ []

mechanisms-IsPlain : All IsPlain mechanisms
unfolding text is_space
mechanisms-IsPlain = ((refl, ground arith, ground arith), ((refl, tt, tt), tt))

parse-print_record_example :
    parse (print_record mechanisms)
    ≡ parsed (record { mechanisms = mechanisms; redirect = none; exp = none })
parse-print_record_example = parse-print_record mechanisms mechanisms-IsPlain

-- Every domain has the same record.
abbrev rejecting : Bytes → List Bytes
rejecting domain = text "v=DMARC1; p=reject" ∷ []

abbrev rejects : Bytes
rejects = text "v=DMARC1; p=reject"

abbrev forged : DmarcInput
forged = record {
  from_domain = text "a.b";
  spf_pass = false;
  spf_domain = [];
  dkim_pass = true;
  dkim_domain = text "nota.b";
}

rejects_version : tag_or (text "v") [] (parse_tags rejects) ≡ text "DMARC1"
unfolding tag_or parse_tags add_tags add_tag split remove_spaces lookup insert lower to_lower text
    bytes_eq find starts_with is_space
rejects_version = refl

rejects_relaxed :
    bytes_eq (tag_or (text "adkim") (text "r") (parse_tags rejects)) (text "s") ≡ false
unfolding tag_or parse_tags add_tags add_tag split remove_spaces lookup insert lower to_lower text
    bytes_eq find starts_with is_space
rejects_relaxed = refl

rejects_pct : pct_of (parse_tags rejects) ≡ some (pos 100)
unfolding pct_of parse_tags add_tags add_tag split remove_spaces lookup insert lower to_lower text
    bytes_eq find starts_with is_space
rejects_pct = refl

forged_ends : forged.dkim_domain ≡ text "not" ++ lower forged.from_domain
unfolding text lower to_lower
forged_ends = refl
