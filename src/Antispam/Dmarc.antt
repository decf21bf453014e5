-- ===== src/Antispam/Dmarc.antt =====
-- `DmarcEvaluator::evaluate` of antispam/dmarc_evaluator.cpp. The TXT records are what the DNS
-- resolver answers, and `drawn` is the number from 1 to 100 that the sampling draws.
use email_server_backend.Base.{
  ℕ, zero, suc, ◌-◌, Bool, false, ◌&&◌, ◌||◌, not, List, [], ◌∷◌, ◌++◌, Bytes, text, find, bytes_eq,
  is_empty, is_space, lower, length, drop, take, ltb, leb, if◌then◌else◌, Option, none, some, Dict,
  lookup, insert,
}
use email_server_backend.Streams.{split}
use email_server_backend.Antispam.Results.{DmarcResultCode, DmarcPolicy, DmarcResult}
use email_server_backend.Integers.{ℤ, pos, negsuc, stoi}

pub record DmarcInput : Type 0 where
  pub from_domain : Bytes
  pub spf_pass : Bool
  pub spf_domain : Bytes
  pub dkim_pass : Bool
  pub dkim_domain : Bytes

unfoldable pub remove_spaces : Bytes → Bytes
remove_spaces [] = []
remove_spaces (c ∷ cs) = let rest = remove_spaces cs in if is_space c then rest else c ∷ rest

unfoldable pub add_tag : Bytes → Dict Bytes → Dict Bytes
add_tag part tags = elim (find (text "=") part) [
  | none ↦ tags
  | some eq ↦
      insert (remove_spaces (lower (take eq part))) (remove_spaces (drop (suc eq) part)) tags
]

unfoldable pub add_tags : List Bytes → Dict Bytes → Dict Bytes
add_tags [] tags = tags
add_tags (part ∷ parts) tags = add_tags parts (add_tag part tags)

unfoldable pub parse_tags : Bytes → Dict Bytes
parse_tags txt = add_tags (split b';' txt) []

unfoldable pub tag_or : Bytes → Bytes → Dict Bytes → Bytes
tag_or key default tags = elim (lookup key tags) [ none ↦ default | some v ↦ v ]

unfoldable pub strict_align : Bytes → Bytes → Bool
strict_align a b = bytes_eq a b

unfoldable pub relaxed_align : Bytes → Bytes → Bool
relaxed_align a b =
    bytes_eq a b || (ltb (length b) (length a) && bytes_eq (drop (length a - length b) a) b)

unfoldable pub parent_domain : Bytes → Bytes
parent_domain d = elim (find (text ".") d) [ none ↦ [] | some dot ↦ drop (suc dot) d ]

unfoldable pub sample_pct : ℕ → ℤ → Bool
sample_pct drawn (pos pct) = leb 100 pct || leb drawn pct
sample_pct drawn (negsuc n) = false

-- The domain at which the search for a record stops, and the records there. The fuel bounds the
-- number of domains, and `none` is running out of it.
unfoldable pub discover : (Bytes → List Bytes) → ℕ → Bytes → Option (Bytes × List Bytes)
discover lookup_txt zero cur = none
discover lookup_txt (suc fuel) cur = elim (lookup_txt (text "_dmarc." ++ cur)) [
  | txt ∷ txts ↦ some (cur, txt ∷ txts)
  | [] ↦
      if is_empty (parent_domain cur)
      then some (cur, [])
      else discover lookup_txt fuel (parent_domain cur)
]

abbrev verdict : DmarcResultCode → DmarcPolicy → DmarcResult
verdict result policy = record { result = result; policy = policy }

unfoldable pub policy_named : Bytes → DmarcPolicy
policy_named s =
    if bytes_eq s (text "reject")
    then DmarcPolicy.reject
    else if bytes_eq s (text "quarantine")
    then DmarcPolicy.quarantine
    else DmarcPolicy.none

unfoldable pub is_aligned : Bytes → Bytes → Bytes → Bool
is_aligned mode a b = if bytes_eq mode (text "s") then strict_align a b else relaxed_align a b

unfoldable pub auth_pass : DmarcInput → Dict Bytes → Bytes → Bool
auth_pass inp tags domain =
    inp.dkim_pass && is_aligned (tag_or (text "adkim") (text "r") tags) inp.dkim_domain domain
    || inp.spf_pass && is_aligned (tag_or (text "aspf") (text "r") tags) inp.spf_domain domain

unfoldable pub policy_of : Dict Bytes → Bool → DmarcPolicy
policy_of tags is_subdomain =
    let p = tag_or (text "p") (text "none") tags in
    policy_named (if is_subdomain then tag_or (text "sp") p tags else p)

-- `none` is an exception of std::stoi.
unfoldable pub pct_of : Dict Bytes → Option ℤ
pct_of tags = elim (lookup (text "pct") tags) [ none ↦ some (pos 100) | some v ↦ stoi v ]

unfoldable pub apply_tags : ℕ → DmarcInput → Dict Bytes → Bytes → Bytes → Option DmarcResult
apply_tags drawn inp tags domain cur =
    if not (bytes_eq (tag_or (text "v") [] tags) (text "DMARC1"))
    then some (verdict DmarcResultCode.fail DmarcPolicy.reject)
    else elim (pct_of tags) [
      | none ↦ none
      | some pct ↦
          if auth_pass inp tags domain
          then some (verdict DmarcResultCode.pass DmarcPolicy.none)
          else if not (sample_pct drawn pct)
          then some (verdict DmarcResultCode.pass DmarcPolicy.none)
          else some (verdict DmarcResultCode.fail (policy_of tags (not (bytes_eq cur domain))))
    ]

unfoldable pub apply_records : ℕ → DmarcInput → Bytes → Bytes → List Bytes → Option DmarcResult
apply_records drawn inp domain cur [] = some (verdict DmarcResultCode.pass DmarcPolicy.none)
apply_records drawn inp domain cur (txt ∷ []) = apply_tags drawn inp (parse_tags txt) domain cur
apply_records drawn inp domain cur (_ ∷ _ ∷ _) =
    some (verdict DmarcResultCode.fail DmarcPolicy.reject)

-- `none` outside is running out of fuel, `none` inside an exception.
unfoldable pub evaluate_dmarc :
    (Bytes → List Bytes) → ℕ → ℕ → DmarcInput → Option (Option DmarcResult)
evaluate_dmarc lookup_txt drawn fuel inp =
    let domain = lower inp.from_domain in
    elim (discover lookup_txt fuel domain) [
      | none ↦ none
      | some (cur, txts) ↦ some (apply_records drawn inp domain cur txts)
    ]
