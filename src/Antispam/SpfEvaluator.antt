-- ===== src/Antispam/SpfEvaluator.antt =====
-- `SpfEvaluator::evaluate` of antispam/spf_evaluator.cpp and `SpfChecker::check` of
-- antispam/spf_checker.cpp. The TXT records of a domain are what the DNS resolver answers.
use email_server_backend.Base.{
  ℕ, zero, suc, ◌-◌, Bool, true, false, ◌&&◌, List, [], ◌∷◌, Bytes, text, find, starts_with, length,
  drop, substr, ltb, ◌==◌, if◌then◌else◌, Option, none, some,
}
use mathlib.Core.Option
use email_server_backend.Antispam.Results.{
  SpfQualifier, plus, minus, tilde, question, SpfMechanismType, all, SpfMechanism, SpfRecord,
  SpfResult, SpfResultCode, SpfCheckResult,
}
use email_server_backend.Antispam.SpfParser.{Parsed, parsed, throws, parse}

unfoldable pub map_q : SpfQualifier → SpfResultCode
map_q plus = SpfResultCode.pass
map_q minus = SpfResultCode.fail
map_q tilde = SpfResultCode.soft_fail
map_q question = SpfResultCode.neutral

-- The records that begin with "v=spf1".
unfoldable pub spf_records : List Bytes → List Bytes
spf_records [] = []
spf_records (t ∷ txts) =
    let rest = spf_records txts in if starts_with (text "v=spf1") t then t ∷ rest else rest

unfoldable pub is_all : SpfMechanismType → Bool
is_all all = true
is_all _ = false

-- The loop over the mechanisms.
unfoldable pub first_all : List SpfMechanism → Option SpfQualifier
first_all [] = none
first_all (m ∷ ms) = let rest = first_all ms in if is_all m.type then some m.qualifier else rest

-- The answer, an exception of the parser included, and the domains that were looked up.
pub record SpfAnswer : Type 0 where
  pub code : Parsed SpfResultCode
  pub looked_up : List Bytes

abbrev answer : SpfResultCode → List Bytes → SpfAnswer
answer code looked_up = record { code = parsed code; looked_up = looked_up }

abbrev pub after_lookup : Bytes → SpfAnswer → SpfAnswer
after_lookup domain r = record r { looked_up = domain ∷ r.looked_up }

-- What becomes of one record: an answer, or the domain to go on with.
pub data Decision : Type 0 where
  decided : Parsed SpfResultCode → Decision
  redirected : Bytes → Decision

unfoldable pub evaluate_record : SpfRecord → Decision
evaluate_record rec = elim (first_all rec.mechanisms) [
  | some q ↦ decided (parsed (map_q q))
  | none ↦ elim rec.redirect [
    | some domain ↦ redirected domain
    | none ↦ decided (parsed SpfResultCode.neutral)
  ]
]

unfoldable pub decide_records : List Bytes → Decision
decide_records [] = decided (parsed SpfResultCode.none)
decide_records (spf ∷ []) = elim (parse spf) [
  | throws e ↦ decided (throws e)
  | parsed rec ↦ evaluate_record rec
]
decide_records (_ ∷ _ ∷ _) = decided (parsed SpfResultCode.perm_error)

abbrev pub max_lookups : ℕ
max_lookups = 10

-- `count` is dnsCount_; the fuel bounds the redirections, and `none` is running out of it.
unfoldable pub evaluate : (Bytes → List Bytes) → ℕ → ℕ → Bytes → Option SpfAnswer
evaluate lookup_txt zero count domain = none
evaluate lookup_txt (suc fuel) count domain =
    if ltb max_lookups (suc count)
    then some (answer SpfResultCode.perm_error [])
    else elim (decide_records (spf_records (lookup_txt domain))) [
      | decided code ↦ some (record { code = code; looked_up = domain ∷ [] })
      | redirected next ↦
          Option.map (after_lookup domain) (evaluate lookup_txt fuel (suc count) next)
    ]

-- if (s.size() > 2 && s.front() == '<' && s.back() == '>')
unfoldable pub ends_with_byte : ℕ → Bytes → Bool
ends_with_byte c [] = false
ends_with_byte c (b ∷ []) = b == c
ends_with_byte c (_ ∷ b ∷ bs) = ends_with_byte c (b ∷ bs)

unfoldable pub strip : Bytes → Bytes
strip s =
    if ltb 2 (length s) && (starts_with (text "<") s && ends_with_byte b'>' s)
    then substr s 1 (length s - 2)
    else s

-- static_cast<SpfResult>: the value with the same position.
unfoldable pub cast_result : SpfResultCode → SpfResult
cast_result SpfResultCode.pass = SpfResult.none
cast_result SpfResultCode.fail = SpfResult.pass
cast_result SpfResultCode.soft_fail = SpfResult.fail
cast_result SpfResultCode.neutral = SpfResult.soft_fail
cast_result SpfResultCode.none = SpfResult.neutral
cast_result SpfResultCode.temp_error = SpfResult.temp_error
cast_result SpfResultCode.perm_error = SpfResult.perm_error

unfoldable pub checked_domain : Bytes → Bytes → Bytes
checked_domain mail_from helo = elim (find (text "@") mail_from) [
  | none ↦ helo
  | some at_sign ↦ drop (suc at_sign) mail_from
]

-- The outer `none` is running out of the fuel that bounds the evaluation.
unfoldable pub check : (Bytes → List Bytes) → ℕ → Bytes → Bytes → Option (Parsed SpfCheckResult)
check lookup_txt fuel mail_from helo =
    let sender = strip mail_from in
    elim (evaluate lookup_txt fuel 0 (checked_domain sender helo)) [
      | none ↦ none
      | some r ↦ elim r.code [
        | throws e ↦ some (throws e)
        | parsed code ↦
            some (parsed (record { result = cast_result code; smtp_mail_from = sender }))
      ]
    ]
