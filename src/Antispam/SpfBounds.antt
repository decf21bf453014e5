-- ===== src/Antispam/SpfBounds.antt =====
-- The evaluation of SPF records (antispam/spf_evaluator.cpp) ends, within its limit of lookups.
use email_server_backend.Base.{
  ℕ, zero, suc, ◌+◌, ◌≤◌, ◌<◌, ◌≡◌, refl, ◌⊎◌, inl, inr, List, arith, Bytes, length, ltb,
  Bool-cases, some,
}
use email_server_backend.Antispam.Results.{SpfResultCode}
use email_server_backend.Antispam.SpfParser.{Parsed}
use email_server_backend.Antispam.SpfEvaluator.{
  SpfAnswer, Decision, decided, redirected, decide_records, spf_records, max_lookups, after_lookup,
  evaluate,
}

Decision-cases :
    (d : Decision)
    → ((c : Parsed SpfResultCode) × (d ≡ decided c)) ⊎ ((next : Bytes) × (d ≡ redirected next))
Decision-cases (decided c) = inl (c, refl)
Decision-cases (redirected next) = inr (next, refl)

-- Whatever the DNS answers, an evaluation that has made at most ten lookups ends, if its fuel is
-- more than the lookups that are left, and makes no more than these.
pub evaluate-bounds :
    (lookup_txt : Bytes → List Bytes) (fuel count : ℕ) (domain : Bytes)
    → count ≤ max_lookups
    → max_lookups < fuel + count
    → (r : SpfAnswer) × (evaluate lookup_txt fuel count domain ≡ some r)
      × (length r.looked_up + count ≤ max_lookups)
unfolding evaluate
evaluate-bounds lookup_txt zero count domain h k = absurd (omega arith)
evaluate-bounds lookup_txt (suc fuel) count domain h k =
    elim (Bool-cases (ltb max_lookups (suc count))) [
      | inl full ↦ rw full (_, refl, omega arith)
      | inr room ↦
          rw room (elim (Decision-cases (decide_records (spf_records (lookup_txt domain)))) [
            | inl (c, e) ↦ rw (e, evaluate) (_, refl, ground arith)
            | inr (next, e) ↦
                rw (e, evaluate)
                  (let (r, found, few) =
                      evaluate-bounds lookup_txt fuel (suc count) next (ground arith)
                        (omega arith) in
                    rw (found, evaluate) (after_lookup domain r, refl, omega arith))
          ])
    ]
