-- ===== src/Spam/Engine.antt =====
-- spam/spam_engine.cpp and threat_intel/intel_feedback.cpp, but for the header texts.
use email_server_backend.Base.{
  ℕ, suc, ◌*◌, false, [], Bytes, text, is_empty, ltb, if◌then◌else◌, none, some, Dict,
}
use email_server_backend.Integers.{ℤ, pos, negsuc, lebℤ}
use email_server_backend.Spam.Reputation.{
  ThreatVerdict, HashReputation, SenderReputation, lookup_hash, score,
}
use email_server_backend.Spam.Rules.{
  AuthResultsState, SpamResult, add, apply_auth_rules, apply_header_rules, apply_body_rules,
}

-- The required score, in tenths, and the counter "messages_spam_total".
pub record SpamEngine : Type 0 where
  pub required_score : ℤ
  pub spam_total : ℕ

abbrev pub default_required : ℤ
default_required = pos 50

unfoldable pub set_required_score : ℤ → SpamEngine → SpamEngine
set_required_score points e = record e { required_score = points }

unfoldable pub apply_hash_intel : Bytes → Dict HashReputation → SpamResult → SpamResult
unfolding text
apply_hash_intel sha256 store r = elim (lookup_hash sha256 store) [
  | none ↦ r
  | some rep ↦ elim rep.verdict [
    | ThreatVerdict.malicious ↦ add (text "THREAT_INTEL_HASH") (pos 100) r
    | ThreatVerdict.suspicious ↦ add (text "THREAT_INTEL_SUSPECT") (pos 40) r
    | ThreatVerdict.clean ↦ r
  ]
]

-- A score of n adds 2.0 * n.
unfoldable pub reputation_rule : ℤ → SpamResult → SpamResult
unfolding text
reputation_rule (negsuc n) r = r
reputation_rule (pos n) r = if ltb 0 n then add (text "SENDER_REPUTATION") (pos (20 * n)) r else r

unfoldable pub apply_sender_intel : Bytes → Dict SenderReputation → SpamResult → SpamResult
apply_sender_intel domain store r = reputation_rule (score domain store) r

abbrev pub no_tests : SpamResult
no_tests = record { total_score = pos 0; is_spam = false; tests = [] }

-- The three groups of rules.
unfoldable pub apply_rules : AuthResultsState → Bytes → Bytes → SpamResult
apply_rules auth headers body =
    apply_body_rules body (apply_header_rules headers (apply_auth_rules auth no_tests))

unfoldable pub evaluate :
    Dict SenderReputation → AuthResultsState → Bytes → Bytes → SpamEngine → SpamResult × SpamEngine
evaluate store auth headers body e =
    let r = apply_rules auth headers body in
    let judged = record r { is_spam = lebℤ e.required_score r.total_score } in
    let domain = auth.dkim.header_domain in
    if judged.is_spam
    then (
      (if is_empty domain then judged else apply_sender_intel domain store judged),
      record e { spam_total = suc e.spam_total },
    )
    else (judged, e)
