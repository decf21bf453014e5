-- ===== src/Spam/Tests.antt =====
-- Runs of the rules under spam/ and of the stores under threat_intel/.
use email_server_backend.Base.{
  ◌≡◌, refl, false, suc, [], text, bytes_eq, lookup, insert, if◌then◌else◌, none, find, lower,
  starts_with, is_empty, Dict,
}
use email_server_backend.Integers.{pos, lebℤ, ◌+ℤ◌}
use email_server_backend.Antispam.Results.{SpfResult, DkimResult, DmarcResultCode, DmarcPolicy}
use email_server_backend.Spam.Reputation.{
  SenderReputation, record_malicious, score, add_hash, lock, save, ThreatVerdict, update_hash,
  lookup_hash,
}
use email_server_backend.Spam.Rules.{
  AuthResultsState, contains, add, apply_body_rules, phrase_rule, apply_header_rules,
  apply_auth_rules,
}
use email_server_backend.Spam.Engine.{
  SpamEngine, default_required, apply_rules, apply_hash_intel, no_tests, evaluate,
  apply_sender_intel, reputation_rule,
}
use email_server_backend.Spam.Sums.{IsSummed, sum}
use email_server_backend.Spam.Scores.{evaluate_lem, evaluate-authenticated}

abbrev failing : AuthResultsState
unfolding text
failing = record {
  spf = record { result = SpfResult.fail; smtp_mail_from = [] };
  dkim = record { result = DkimResult.fail; header_domain = text "bad.example" };
  dmarc = record { result = DmarcResultCode.fail; policy = DmarcPolicy.reject };
}

abbrev signed : AuthResultsState
unfolding text
signed = record {
  spf = record { result = SpfResult.pass; smtp_mail_from = [] };
  dkim = record { result = DkimResult.pass; header_domain = text "good.example" };
  dmarc = record { result = DmarcResultCode.pass; policy = DmarcPolicy.reject };
}

abbrev engine : SpamEngine
engine = record { required_score = default_required; spam_total = 0 }

abbrev known : Dict SenderReputation
unfolding text record_malicious insert lookup
known = record_malicious (text "bad.example") []

evaluate_lem_example :
    let r = evaluate known failing (text "From: a") (text "Free money") engine in
    IsSummed r.0
    × ((r.0.is_spam
          ≡ lebℤ engine.required_score
              (sum (apply_rules failing (text "From: a") (text "Free money")).tests))
        × ((r.1.spam_total ≡ (if r.0.is_spam then suc engine.spam_total else engine.spam_total))
            × (r.0.is_spam
                ≡ (evaluate [] failing (text "From: a") (text "Free money") engine).0.is_spam)))
evaluate_lem_example = evaluate_lem known [] failing (text "From: a") (text "Free money") engine

-- 2.5 and 2.0 and 3.0, 2.0 for the phrase, and 2.0 for the sender.
scored :
    (evaluate known failing (text "From: a") (text "Free money") engine).0.total_score ≡ pos 115
unfolding evaluate known failing apply_rules text lower bytes_eq lookup insert find starts_with
    contains is_empty lebℤ ◌+ℤ◌ score add apply_body_rules phrase_rule apply_header_rules
    apply_auth_rules apply_sender_intel reputation_rule
scored = refl

evaluate-authenticated_example :
    (evaluate known signed (text "From: a") (text "Free money") engine).0.is_spam ≡ false
unfolding signed
evaluate-authenticated_example =
    evaluate-authenticated known signed (text "From: a") (text "Free money") engine refl refl
      (λ e. cc e) refl

-- `addHash` waits for the lock that it holds.
never_returns : add_hash (text "abc") (record { locked = false; hashes = [] }) ≡ none
unfolding add_hash lock save
never_returns = refl

-- A hash that is known to be malicious counts 10.0.
hash_counts :
    (apply_hash_intel
      (text "abc")
      (update_hash (text "abc") ThreatVerdict.malicious [] [])
      no_tests).total_score
    ≡ pos 100
unfolding apply_hash_intel update_hash text bytes_eq lookup insert add ◌+ℤ◌ lookup_hash
hash_counts = refl
