-- ===== src/Antispam/DmarcLaws.antt =====
-- DMARC (antispam/dmarc_evaluator.cpp): the search for a record, alignment and enforcement.
use email_server_backend.Base.{
  ℕ, zero, suc, ◌-◌, ◌<◌, ◌≤◌, ◌≡◌, ◌↔◌, refl, sym, ap, subst, ◌∙◌, ◌⊎◌, inl, inr, true, false,
  List, [], ◌∷◌, ◌++◌, arith, Bytes, text, find, bytes_eq, bytes_eq_iff, bytes_eq_refl, is_empty,
  lower, length, length-append, drop, drop-append, ltb_iff, Bool-cases, Option-cases, some,
}
use email_server_backend.Antispam.Results.{DmarcResultCode, DmarcPolicy}
use email_server_backend.Integers.{ℤ}
use email_server_backend.Antispam.Dmarc.{
  DmarcInput, parse_tags, tag_or, relaxed_align, is_aligned, auth_pass, parent_domain, discover,
  pct_of, apply_tags, apply_records, evaluate_dmarc,
}

take_suffix : (n : ℕ) (a : Bytes) → n ≤ length a → (x : Bytes) × (a ≡ x ++ drop n a)
take_suffix zero a h = ([], refl)
take_suffix (suc n) [] h = absurd (omega arith)
take_suffix (suc n) (c ∷ a) h =
    let (x, e) = take_suffix n a (omega arith) in (c ∷ x, ap (λ y. c ∷ y) e)

relaxed_align-append : (x b : Bytes) → relaxed_align (x ++ b) b ≡ true
unfolding relaxed_align
relaxed_align-append [] b = rw (bytes_eq_refl b) refl
relaxed_align-append (c ∷ x) b =
    let longer : length b < length (c ∷ x ++ b) = omega (arith, length-append x b) in
    let cut : length (c ∷ x ++ b) - length b ≡ length (c ∷ x) = omega (arith, length-append x b) in
    let rest : bytes_eq (drop (length (c ∷ x ++ b) - length b) (c ∷ x ++ b)) b ≡ true =
      rw (cut, drop-append (c ∷ x) b) (bytes_eq_refl b) in
    ground (arith, (ltb_iff (length b) (length (c ∷ x ++ b))).1 longer, rest)

-- Relaxed alignment accepts exactly the strings that end with the domain, with no dot before it:
-- the domain itself, its subdomains, and any other domain with that suffix.
pub relaxed_align_iff : (a b : Bytes) → (relaxed_align a b ≡ true) ↔ ((x : Bytes) × (a ≡ x ++ b))
unfolding relaxed_align
relaxed_align_iff a b =
    (forth, λ (x, e). subst (λ y. relaxed_align y b ≡ true) (sym e) (relaxed_align-append x b))
  where
    forth : relaxed_align a b ≡ true → (x : Bytes) × (a ≡ x ++ b)
    forth h = elim (Bool-cases (bytes_eq a b)) [
      | inl same ↦ ([], (bytes_eq_iff a b).0 same)
      | inr other ↦
          let (x, e) = take_suffix (length a - length b) a (omega arith) in
          (x, e ∙ ap (λ y. x ++ y) ((bytes_eq_iff _ b).0 (ground arith)))
    ]

drop-shorter :
    (n : ℕ) (d : Bytes) → is_empty (drop (suc n) d) ≡ false → length (drop (suc n) d) < length d
unfolding is_empty
drop-shorter n [] h = absurd (ground arith)
drop-shorter zero (c ∷ d) h = omega arith
drop-shorter (suc n) (c ∷ d) h = omega (arith, drop-shorter n d h)

parent_domain-length :
    (d : Bytes) → is_empty (parent_domain d) ≡ false → length (parent_domain d) < length d
unfolding parent_domain is_empty
parent_domain-length d h = elim (Option-cases (find (text ".") d)) [
  | inl e ↦ absurd (ground arith)
  | inr (dot, e) ↦ rw (e, parent_domain) (drop-shorter dot d (ground arith))
]

List-cases : {A : Type 0} (xs : List A) → (xs ≡ []) ⊎ ((y : A) × (ys : List A) × (xs ≡ y ∷ ys))
List-cases [] = inl refl
List-cases (y ∷ ys) = inr (y, ys, refl)

-- The search for a record ends, with fuel for one more domain than the first one has bytes.
pub discover-total :
    (lookup_txt : Bytes → List Bytes) (fuel : ℕ) (cur : Bytes)
    → length cur < fuel
    → (found : Bytes × List Bytes) × (discover lookup_txt fuel cur ≡ some found)
unfolding discover
discover-total lookup_txt zero cur h = absurd (omega arith)
discover-total lookup_txt (suc fuel) cur h =
    elim (List-cases (lookup_txt (text "_dmarc." ++ cur))) [
      | inr (txt, txts, e) ↦ rw (e, discover) (_, refl)
      | inl e ↦
          rw (e, discover)
            (elim (Bool-cases (is_empty (parent_domain cur))) [
              | inl last ↦ rw last (_, refl)
              | inr more ↦ rw more (
                  discover-total lookup_txt fuel (parent_domain cur)
                    (omega (arith, parent_domain-length cur more)))
            ])
    ]

-- A message from a domain whose one DMARC record is valid and asks for relaxed DKIM alignment
-- passes, whatever that record's policy, where DKIM passes for any domain that ends in the same
-- bytes, such as another owner's "notexample.com" for "example.com".
pub lookalike_passes :
    (lookup_txt : Bytes → List Bytes) (drawn fuel : ℕ) (inp : DmarcInput) (txt prefix : Bytes)
    (pct : ℤ)
    → lookup_txt (text "_dmarc." ++ lower inp.from_domain) ≡ txt ∷ []
    → tag_or (text "v") [] (parse_tags txt) ≡ text "DMARC1"
    → bytes_eq (tag_or (text "adkim") (text "r") (parse_tags txt)) (text "s") ≡ false
    → pct_of (parse_tags txt) ≡ some pct
    → inp.dkim_pass ≡ true
    → inp.dkim_domain ≡ prefix ++ lower inp.from_domain
    → evaluate_dmarc lookup_txt drawn (suc fuel) inp
      ≡ some (some (record { result = DmarcResultCode.pass; policy = DmarcPolicy.none }))
unfolding evaluate_dmarc discover apply_records apply_tags auth_pass is_aligned
lookalike_passes lookup_txt drawn fuel inp txt prefix pct one version relaxed number passed ends =
    rw
      (
        one,
        version,
        bytes_eq_refl (text "DMARC1"),
        number,
        passed,
        relaxed,
        ends,
        relaxed_align-append prefix (lower inp.from_domain),
        evaluate_dmarc,
        discover,
        apply_records,
        apply_tags,
      )
      refl
