-- ===== src/Spam/Sums.antt =====
-- The score of a message under spam/ as the sum of the scores of its tests.
use email_server_backend.Base.{
  ◌≡◌, ◌∙◌, refl, sym, ap, Bool, true, false, List, [], ◌∷◌, ◌++◌, Bytes, if◌then◌else◌,
}
use email_server_backend.Integers.{ℤ, pos, negsuc, ◌+ℤ◌, +ℤ_assoc, int_laws}
use email_server_backend.Antispam.Results.{SpfResult, DkimResult, DmarcResultCode, DmarcPolicy}
use email_server_backend.Spam.Rules.{
  AuthResultsState, SpamTest, SpamResult, add, spf_rule, dkim_rule, dmarc_rule, apply_auth_rules,
  apply_header_rules, phrase_rule, apply_body_rules,
}
use email_server_backend.Spam.Engine.{reputation_rule, no_tests, apply_rules}

abbrev pub sum : List SpamTest → ℤ
sum [] = pos 0
sum (t ∷ ts) = t.score +ℤ sum ts

abbrev pub IsSummed : SpamResult → Type 0
IsSummed r = r.total_score ≡ sum r.tests

pub sum-snoc : (ts : List SpamTest) (t : SpamTest) → sum (ts ++ t ∷ []) ≡ sum ts +ℤ t.score
sum-snoc [] t = omega int_laws
sum-snoc (u ∷ ts) t =
    ap (λ (x : ℤ). u.score +ℤ x) (sum-snoc ts t) ∙ sym (+ℤ_assoc u.score (sum ts) t.score)

pub add-IsSummed : (name : Bytes) (p : ℤ) (r : SpamResult) → IsSummed r → IsSummed (add name p r)
unfolding add
add-IsSummed name p r h =
    ap (λ (x : ℤ). x +ℤ p) h ∙ sym (sum-snoc r.tests (record { name = name; score = p }))

pub spf_rule-IsSummed : (s : SpfResult) (r : SpamResult) → IsSummed r → IsSummed (spf_rule s r)
unfolding spf_rule
spf_rule-IsSummed SpfResult.fail r h = add-IsSummed _ _ r h
spf_rule-IsSummed SpfResult.pass r h = add-IsSummed _ _ r h
spf_rule-IsSummed _ r h = h

pub dkim_rule-IsSummed : (s : DkimResult) (r : SpamResult) → IsSummed r → IsSummed (dkim_rule s r)
unfolding dkim_rule
dkim_rule-IsSummed DkimResult.none r h = add-IsSummed _ _ r h
dkim_rule-IsSummed DkimResult.fail r h = add-IsSummed _ _ r h
dkim_rule-IsSummed DkimResult.pass r h = add-IsSummed _ _ r h
dkim_rule-IsSummed _ r h = h

pub dmarc_rule-IsSummed :
    (c : DmarcResultCode) (p : DmarcPolicy) (r : SpamResult)
    → IsSummed r
    → IsSummed (dmarc_rule c p r)
unfolding dmarc_rule
dmarc_rule-IsSummed DmarcResultCode.fail DmarcPolicy.reject r h = add-IsSummed _ _ r h
dmarc_rule-IsSummed _ _ r h = h

pub if-IsSummed :
    (b : Bool) (x y : SpamResult) → IsSummed x → IsSummed y → IsSummed (if b then x else y)
if-IsSummed true x y h k = h
if-IsSummed false x y h k = k

pub apply_header_rules-IsSummed :
    (headers : Bytes) (r : SpamResult) → IsSummed r → IsSummed (apply_header_rules headers r)
unfolding apply_header_rules
apply_header_rules-IsSummed headers r h =
    if-IsSummed _ _ r (if-IsSummed _ _ r (add-IsSummed _ _ r h) h) h

pub phrase_rule-IsSummed :
    (phrase name : Bytes) (p : ℤ) (b : Bytes) (r : SpamResult)
    → IsSummed r
    → IsSummed (phrase_rule phrase name p b r)
unfolding phrase_rule
phrase_rule-IsSummed phrase name p b r h = if-IsSummed _ _ r (add-IsSummed _ _ r h) h

pub reputation_rule-IsSummed :
    (s : ℤ) (r : SpamResult) → IsSummed r → IsSummed (reputation_rule s r)
unfolding reputation_rule
reputation_rule-IsSummed (negsuc n) r h = h
reputation_rule-IsSummed (pos n) r h = if-IsSummed _ _ r (add-IsSummed _ _ r h) h

pub apply_rules-IsSummed :
    (auth : AuthResultsState) (headers body : Bytes) → IsSummed (apply_rules auth headers body)
unfolding apply_rules apply_body_rules apply_auth_rules
apply_rules-IsSummed auth headers body = phrase_rule-IsSummed _ _ _ _ _ (
    phrase_rule-IsSummed _ _ _ _ _ (
      apply_header_rules-IsSummed headers _ (
        dmarc_rule-IsSummed auth.dmarc.result auth.dmarc.policy _ (
          dkim_rule-IsSummed auth.dkim.result _
            (spf_rule-IsSummed auth.spf.result no_tests refl)))))
