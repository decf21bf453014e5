-- ===== src/Antispam/SpfResults.antt =====
-- What `SpfChecker::check` of antispam/spf_checker.cpp reports of the answer it gets.
use email_server_backend.Base.{ℕ, ◌≡◌, ◌↔◌, List, arith, Bytes, some}
use email_server_backend.Antispam.Results.{SpfResult, SpfResultCode, SpfCheckResult}
use email_server_backend.Antispam.SpfParser.{parsed}
use email_server_backend.Antispam.SpfEvaluator.{
  SpfAnswer, evaluate, strip, cast_result, checked_domain, check,
}

-- The check reports Pass exactly where the evaluation of the sender's domain says Fail.
pub check_pass_iff_fail :
    (lookup_txt : Bytes → List Bytes) (fuel : ℕ) (mail_from helo : Bytes) (r : SpfAnswer)
    (res : SpfCheckResult)
    → evaluate lookup_txt fuel 0 (checked_domain (strip mail_from) helo) ≡ some r
    → check lookup_txt fuel mail_from helo ≡ some (parsed res)
    → (res.result ≡ SpfResult.pass) ↔ (r.code ≡ parsed SpfResultCode.fail)
unfolding check cast_result
check_pass_iff_fail lookup_txt fuel mail_from helo r res e c = ground arith
