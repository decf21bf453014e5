-- ===== src/Spam/Rules.antt =====
-- spam/spam_rules.cpp. Scores are counted in tenths, as every score of the rules is one.
use email_server_backend.Base.{
  Bool, true, false, List, [], ◌∷◌, ◌++◌, Bytes, text, find, lower, if◌then◌else◌, none, some,
}
use email_server_backend.Integers.{ℤ, pos, negsuc, ◌+ℤ◌}
use email_server_backend.Antispam.Results.{
  SpfResult, SpfCheckResult, DkimResult, DkimAuthResult, DmarcResultCode, DmarcPolicy, DmarcResult,
}

pub record AuthResultsState : Type 0 where
  pub spf : SpfCheckResult
  pub dkim : DkimAuthResult
  pub dmarc : DmarcResult

pub record SpamTest : Type 0 where
  pub name : Bytes
  pub score : ℤ

pub record SpamResult : Type 0 where
  pub total_score : ℤ
  pub is_spam : Bool
  pub tests : List SpamTest

unfoldable pub add : Bytes → ℤ → SpamResult → SpamResult
add name points r = record r {
  total_score = r.total_score +ℤ points;
  tests = r.tests ++ record { name = name; score = points } ∷ [];
}

unfoldable pub spf_rule : SpfResult → SpamResult → SpamResult
unfolding text
spf_rule SpfResult.fail r = add (text "SPF_FAIL") (pos 25) r
spf_rule SpfResult.pass r = add (text "SPF_PASS") (negsuc 4) r
spf_rule _ r = r

unfoldable pub dkim_rule : DkimResult → SpamResult → SpamResult
unfolding text
dkim_rule DkimResult.none r = add (text "DKIM_NONE") (pos 10) r
dkim_rule DkimResult.fail r = add (text "DKIM_FAIL") (pos 20) r
dkim_rule DkimResult.pass r = add (text "DKIM_PASS") (negsuc 6) r
dkim_rule _ r = r

unfoldable pub dmarc_rule : DmarcResultCode → DmarcPolicy → SpamResult → SpamResult
unfolding text
dmarc_rule DmarcResultCode.fail DmarcPolicy.reject r = add (text "DMARC_FAIL") (pos 30) r
dmarc_rule _ _ r = r

unfoldable pub apply_auth_rules : AuthResultsState → SpamResult → SpamResult
unfolding spf_rule dkim_rule dmarc_rule
apply_auth_rules auth r =
    dmarc_rule auth.dmarc.result auth.dmarc.policy
      (dkim_rule auth.dkim.result (spf_rule auth.spf.result r))

unfoldable pub contains : Bytes → Bytes → Bool
contains p s = elim (find p s) [ none ↦ false | some i ↦ true ]

unfoldable pub apply_header_rules : Bytes → SpamResult → SpamResult
unfolding text
apply_header_rules headers r =
    if contains (text "Reply-To:") headers
    then (if contains (text "From:") headers then add (text "REPLY_TO_MISMATCH") (pos 10) r else r)
    else r

-- A rule that looks for a phrase in the body.
unfoldable pub phrase_rule : Bytes → Bytes → ℤ → Bytes → SpamResult → SpamResult
phrase_rule phrase name points b r = if contains phrase b then add name points r else r

unfoldable pub apply_body_rules : Bytes → SpamResult → SpamResult
unfolding text
apply_body_rules body r =
    let b = lower body in
    phrase_rule (text "click here") (text "CLICK_HERE") (pos 15) b
      (phrase_rule (text "free money") (text "FREE_MONEY") (pos 20) b r)
