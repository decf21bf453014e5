-- ===== src/Spam/Scores.antt =====
-- What the score of spam/spam_engine.cpp is made of, and how far it goes.
use email_server_backend.Base.{
  ℕ, suc, ◌+◌, ◌≤◌, ◌≡◌, ◌≢◌, ◌∙◌, refl, sym, ap, Bool, true, false, arith, Bytes, text, lower,
  is_empty, if◌then◌else◌, Dict, inl, inr, Bool-cases,
}
use email_server_backend.Integers.{ℤ, pos, negsuc, ◌+ℤ◌, lebℤ, pos_part, neg_part, +ℤ_parts}
use email_server_backend.Antispam.Results.{SpfResult, DkimResult, DmarcResultCode, DmarcPolicy}
use email_server_backend.Spam.Reputation.{SenderReputation, score}
use email_server_backend.Spam.Rules.{
  AuthResultsState, SpamResult, add, spf_rule, dkim_rule, dmarc_rule, apply_auth_rules, contains,
  apply_header_rules, phrase_rule, apply_body_rules,
}
use email_server_backend.Spam.Engine.{
  SpamEngine, default_required, reputation_rule, apply_sender_intel, no_tests, apply_rules,
  evaluate,
}
use email_server_backend.Spam.Sums.{
  sum, IsSummed, if-IsSummed, reputation_rule-IsSummed, apply_rules-IsSummed,
}

reputation_rule-is_spam : (s : ℤ) (r : SpamResult) → (reputation_rule s r).is_spam ≡ r.is_spam
unfolding reputation_rule add
reputation_rule-is_spam (negsuc n) r = refl
reputation_rule-is_spam (pos n) r = ground arith

module _ (auth : AuthResultsState) (headers body : Bytes) (e : SpamEngine) where
  -- What `evaluate` has before it looks at the sender.
  judged : SpamResult
  judged =
      let r = apply_rules auth headers body in
      record r { is_spam = lebℤ e.required_score r.total_score }

  with_sender : Dict SenderReputation → SpamResult
  with_sender store =
      if is_empty auth.dkim.header_domain
      then judged
      else apply_sender_intel auth.dkim.header_domain store judged

  with_sender-is_spam :
      (store : Dict SenderReputation) → (with_sender store).is_spam ≡ judged.is_spam
  unfolding with_sender apply_sender_intel
  with_sender-is_spam store = elim (Bool-cases (is_empty auth.dkim.header_domain)) [
    | inl e ↦ rw e refl
    | inr e ↦ rw e (reputation_rule-is_spam (score auth.dkim.header_domain store) judged)
  ]

  with_sender-IsSummed : (store : Dict SenderReputation) → IsSummed (with_sender store)
  unfolding with_sender apply_sender_intel judged
  with_sender-IsSummed store =
      let sums = apply_rules-IsSummed auth headers body in
      if-IsSummed (is_empty auth.dkim.header_domain) judged
        (apply_sender_intel auth.dkim.header_domain store judged) sums
        (reputation_rule-IsSummed (score auth.dkim.header_domain store) judged sums)

  evaluate-cases :
      (store : Dict SenderReputation)
      → evaluate store auth headers body e ≡ (
          if judged.is_spam
          then (with_sender store, record e { spam_total = suc e.spam_total })
          else (judged, e))
  unfolding evaluate with_sender judged
  evaluate-cases store = refl

-- The score of a message is the sum of the scores of its tests. The message is spam exactly if the
-- tests of the rules reach the required score, and then it is counted; the reputation of the sender
-- comes afterwards, so that no reputation changes the verdict.
pub evaluate_lem :
    (store store' : Dict SenderReputation) (auth : AuthResultsState) (headers body : Bytes)
    (e : SpamEngine)
    → let r = evaluate store auth headers body e in
      IsSummed r.0
      × ((r.0.is_spam ≡ lebℤ e.required_score (sum (apply_rules auth headers body).tests))
          × ((r.1.spam_total ≡ (if r.0.is_spam then suc e.spam_total else e.spam_total))
              × (r.0.is_spam ≡ (evaluate store' auth headers body e).0.is_spam)))
unfolding judged
evaluate_lem store store' auth headers body e =
    let sums = apply_rules-IsSummed auth headers body in
    let start = judged auth headers body e in
    let verdict : start.is_spam
        ≡ lebℤ e.required_score (sum (apply_rules auth headers body).tests) =
      ap (lebℤ e.required_score) sums in
    let same = with_sender-is_spam auth headers body e store in
    let same' = with_sender-is_spam auth headers body e store' in
    elim (Bool-cases start.is_spam) [
      | inl s ↦
          rw
            (evaluate-cases auth headers body e store, evaluate-cases auth headers body e store', s)
            (
              with_sender-IsSummed auth headers body e store,
              (same ∙ verdict, (rw (same ∙ s) refl, same ∙ sym same')),
            )
      | inr s ↦
          rw
            (evaluate-cases auth headers body e store, evaluate-cases auth headers body e store', s)
            (sums, (sym s ∙ verdict, (refl, refl)))
    ]

-- The score is below a bound.
abbrev Below : ℕ → SpamResult → Type 0
Below k r = pos_part r.total_score ≤ neg_part r.total_score + k

add-Below :
    (name : Bytes) (p k : ℕ) (r : SpamResult) → Below k r → Below (k + p) (add name (pos p) r)
unfolding add
add-Below name p k r h = omega (arith, +ℤ_parts r.total_score (pos p))

if-Below :
    (b : Bool) (p k : ℕ) (x r : SpamResult)
    → Below (k + p) x
    → Below k r
    → Below (k + p) (if b then x else r)
if-Below true p k x r h g = h
if-Below false p k x r h g = omega arith

phrase_rule-Below :
    (phrase name b : Bytes) (p k : ℕ) (r : SpamResult)
    → Below k r
    → Below (k + p) (phrase_rule phrase name (pos p) b r)
unfolding phrase_rule
phrase_rule-Below phrase name b p k r h =
    if-Below (contains phrase b) p k (add name (pos p) r) r (add-Below name p k r h) h

apply_header_rules-Below :
    (headers : Bytes) (k : ℕ) (r : SpamResult)
    → Below k r
    → Below (k + 10) (apply_header_rules headers r)
unfolding apply_header_rules
apply_header_rules-Below headers k r h =
    let name = text "REPLY_TO_MISMATCH" in
    let from = contains (text "From:") headers in
    if-Below (contains (text "Reply-To:") headers) 10 k (if from then add name (pos 10) r else r) r
      (if-Below from 10 k (add name (pos 10) r) r (add-Below name 10 k r h) h) h

auth-Below :
    (s : SpfResult) (d : DkimResult) (c : DmarcResultCode) (p : DmarcPolicy)
    → s ≡ SpfResult.pass
    → d ≡ DkimResult.pass
    → c ≢ DmarcResultCode.fail
    → Below 0 (dmarc_rule c p (dkim_rule d (spf_rule s no_tests)))
unfolding dmarc_rule
auth-Below s d DmarcResultCode.none p e f h =
    rw (e, f) (unfold spf_rule dkim_rule add ◌+ℤ◌ in omega arith)
auth-Below s d DmarcResultCode.pass p e f h =
    rw (e, f) (unfold spf_rule dkim_rule add ◌+ℤ◌ in omega arith)
auth-Below s d DmarcResultCode.fail p e f h = absurd (h refl)

not_required :
    (r : SpamResult) (required : ℤ)
    → Below 45 r
    → required ≡ default_required
    → lebℤ required r.total_score ≡ false
unfolding lebℤ
not_required r required h e = rw e (ground (arith, h))

-- A message that passes SPF and DKIM, and that does not fail DMARC, is never spam for the default
-- required score of 5.0, whatever its headers, its body and the reputation of its sender.
pub evaluate-authenticated :
    (store : Dict SenderReputation) (auth : AuthResultsState) (headers body : Bytes)
    (e : SpamEngine)
    → auth.spf.result ≡ SpfResult.pass
    → auth.dkim.result ≡ DkimResult.pass
    → auth.dmarc.result ≢ DmarcResultCode.fail
    → e.required_score ≡ default_required
    → (evaluate store auth headers body e).0.is_spam ≡ false
unfolding apply_rules apply_auth_rules apply_body_rules
evaluate-authenticated store auth headers body e s d m q =
    let start = apply_auth_rules auth no_tests in
    let headed = apply_header_rules headers start in
    let b = lower body in
    let low =
      auth-Below auth.spf.result auth.dkim.result auth.dmarc.result auth.dmarc.policy s d m in
    let one = apply_header_rules-Below headers 0 start low in
    let two = phrase_rule-Below (text "free money") (text "FREE_MONEY") b 20 10 headed one in
    let three =
      phrase_rule-Below (text "click here") (text "CLICK_HERE") b 15 30
        (phrase_rule (text "free money") (text "FREE_MONEY") (pos 20) b headed) two in
    (evaluate_lem store store auth headers body e).1.0
    ∙ (ap (lebℤ e.required_score) (sym (apply_rules-IsSummed auth headers body))
        ∙ not_required (apply_rules auth headers body) e.required_score three q)
