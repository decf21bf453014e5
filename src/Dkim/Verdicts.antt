-- ===== src/Dkim/Verdicts.antt =====
-- What antispam/dkim_verifier.cpp makes of a message, in particular of one that
-- antispam/dkim_signer.cpp signed.
use email_server_backend.Base.{
  ℕ, ◌<◌, ◌≡◌, ◌≢◌, ◌∙◌, refl, sym, ap, subst, Bool, true, false, ◌||◌, List, [], ◌∷◌, ◌++◌,
  append_assoc, arith, Bytes, text, is_empty, substr, drop, find, starts_with, length, take-append,
  All, if◌then◌else◌, Option, some, none, inl, inr, Bool-cases, Option-cases,
}
use email_server_backend.Antispam.Results.{DkimResult, DkimAuthResult}
use email_server_backend.Dkim.Canon.{crlf, canonicalize_body, canonicalize_headers}
use email_server_backend.Dkim.Signer.{
  DkimSignConfig, SignerLibrary, header_bare, split_header_names, concat, sign,
}
use email_server_backend.Dkim.Verifier.{
  VerifierLibrary, get_tag, field_from, load_public_key, check_signature, check_key, check_records,
  verdict, verify,
}
use email_server_backend.Dkim.Marks.{IsValue}
use email_server_backend.Dkim.Tags.{IsPadded, get_tag-header_bare}

module _ {Key : Type 0} (lib : VerifierLibrary Key) where
  check_signature-body :
      (key : Key) (domain headers body body' dkim_header canon canon' : Bytes)
      → canonicalize_body body ≡ some canon
      → canonicalize_body body' ≡ some canon'
      → check_signature lib key domain headers body dkim_header
        ≡ check_signature lib key domain headers body' dkim_header
  unfolding check_signature
  check_signature-body key domain headers body body' dkim_header canon canon' e e' =
      rw (e, e', check_signature) refl

  check_key-body :
      (key : Option Key) (domain headers body body' dkim_header canon canon' : Bytes)
      → canonicalize_body body ≡ some canon
      → canonicalize_body body' ≡ some canon'
      → check_key lib key domain headers body dkim_header
        ≡ check_key lib key domain headers body' dkim_header
  unfolding check_key
  check_key-body none domain headers body body' dkim_header canon canon' e e' = refl
  check_key-body (some key) domain headers body body' dkim_header canon canon' e e' =
      check_signature-body key domain headers body body' dkim_header canon canon' e e'

  check_records-body :
      (txts : List Bytes) (domain headers body body' dkim_header canon canon' : Bytes)
      → canonicalize_body body ≡ some canon
      → canonicalize_body body' ≡ some canon'
      → check_records lib txts domain headers body dkim_header
        ≡ check_records lib txts domain headers body' dkim_header
  unfolding check_records
  check_records-body [] domain headers body body' dkim_header canon canon' e e' = refl
  check_records-body (txt ∷ _) domain headers body body' dkim_header canon canon' e e' =
      check_key-body (load_public_key lib txt) domain headers body body' dkim_header canon canon' e
        e'

  -- The body of a message has no influence on the verdict: where the canonical forms of two bodies
  -- exist, a message is judged alike with the one and with the other, so that a signature that
  -- passes passes with any body.
  pub verify-body :
      (headers body body' canon canon' : Bytes)
      → canonicalize_body body ≡ some canon
      → canonicalize_body body' ≡ some canon'
      → verify lib headers body ≡ verify lib headers body'
  unfolding verify
  verify-body headers body body' canon canon' e e' =
      elim (Option-cases (find (text "DKIM-Signature:") headers)) [
        | inl n ↦ rw (n, verify) refl
        | inr (pos, n) ↦
            let dkim_header = field_from crlf (drop pos headers) in
            let domain = get_tag dkim_header (b'd' ∷ []) in
            let selector = get_tag dkim_header (b's' ∷ []) in
            rw
              (
                n,
                verify,
                check_records-body (lib.lookup_txt (selector ++ (text "._domainkey." ++ domain)))
                    domain headers body body' dkim_header canon canon' e e',
              )
              refl
      ]

-- Where the first CRLF stands.
find-crlf :
    (v rest : Bytes) → All (λ c. c ≢ 13) v → find crlf (v ++ (crlf ++ rest)) ≡ some (length v)
unfolding find starts_with
find-crlf [] rest h = ground arith
find-crlf (c ∷ v) rest h = ground (arith, find-crlf v rest h.1)

field_from-crlf : (v rest : Bytes) → All (λ c. c ≢ 13) v → field_from crlf (v ++ (crlf ++ rest)) ≡ v
unfolding field_from substr
field_from-crlf v rest h = rw (find-crlf v rest h, field_from) (take-append v (crlf ++ rest))

-- The header of the signer is the first one that the verifier finds.
find-header_bare :
    (cfg : DkimSignConfig) (bh rest : Bytes)
    → find (text "DKIM-Signature:") (header_bare cfg bh ++ rest) ≡ some 0
unfolding header_bare find starts_with text
find-header_bare cfg bh rest = refl

-- The verdict, if there is one, is not a pass.
abbrev pub NotPassed : Option DkimAuthResult → Type 0
NotPassed none = Unit
NotPassed (some r) = r.result ≢ DkimResult.pass

-- Every accepted signature has the length of the keys, and the encoding of one that long is longer.
pub record HasKeySize {Private Public : Type 0} (n : ℕ) (s : SignerLibrary Private)
    (v : VerifierLibrary Public) : Type 0 where
  pub accepted : (key : Public) (d sig : Bytes) → v.verify_data key d sig ≡ true → length sig ≡ n
  pub made : (key : Private) (d : Bytes) → length (s.sign_data key d) ≡ n
  pub encoded : (sig : Bytes) → length sig ≡ n → n < length (s.base64_encode sig)
  pub plain : (sig : Bytes) → All (λ c. c ≢ b';') (s.base64_encode sig)
  pub hashed : (b : Bytes) → IsPadded (s.base64_encode (s.sha256 b))

module _ {Private Public : Type 0} (s : SignerLibrary Private) (v : VerifierLibrary Public) (n : ℕ)
    (size : HasKeySize n s v) where
  -- How a header of the signer is made.
  Signed : DkimSignConfig → Bytes → Type 0
  Signed cfg header =
      (canon : Bytes) × ((key : Private) × ((d : Bytes) × (header
            ≡ header_bare cfg (s.base64_encode (s.sha256 canon))
              ++ s.base64_encode (s.sign_data key d))))

  sign-Signed :
      (cfg : DkimSignConfig) (headers body header : Bytes)
      → sign s cfg headers body ≡ some header
      → is_empty header ≡ false
      → Signed cfg header
  unfolding sign Signed is_empty
  sign-Signed cfg headers body header e h = elim (Option-cases (canonicalize_body body)) [
    | inl c ↦ let thrown : sign s cfg headers body ≡ none = rw (c, sign) refl in cc (sym e ∙ thrown)
    | inr (canon, c) ↦ elim (Option-cases (s.load_private_key cfg.private_key_path)) [
      | inl k ↦
          let empty : sign s cfg headers body ≡ some [] = rw (c, k, sign) refl in
          absurd (ground (arith, sym e ∙ empty))
      | inr (key, k) ↦
          let bare = header_bare cfg (s.base64_encode (s.sha256 canon)) in
          let names = split_header_names cfg.headers_to_sign in
          let d = concat (canonicalize_headers (headers ++ (crlf ++ bare)) names) in
          let made : sign s cfg headers body ≡ some (bare ++ s.base64_encode (s.sign_data key d)) =
            rw (c, k, sign) refl in
          (canon, (key, (d, cc (sym e ∙ made))))
    ]
  ]

  refused : (key : Public) (d sig : Bytes) → n < length sig → v.verify_data key d sig ≡ false
  refused key d sig h = elim (Bool-cases (v.verify_data key d sig)) [
    | inl e ↦ absurd (omega (arith, size.accepted key d sig e))
    | inr e ↦ e
  ]

  check_key-NotPassed :
      (key : Option Public) (domain headers body header : Bytes)
      → n < length (get_tag header (b'b' ∷ []))
      → NotPassed (check_key v key domain headers body header)
  unfolding check_key check_signature
  check_key-NotPassed none domain headers body header h = λ e. cc e
  check_key-NotPassed (some key) domain headers body header h =
      elim (Option-cases (canonicalize_body body)) [
        | inl c ↦ rw (c, check_signature) tt
        | inr (canon, c) ↦
            rw (c, check_signature, refused key _ (get_tag header (b'b' ∷ [])) h) (λ e. cc e)
      ]

  check_records-NotPassed :
      (txts : List Bytes) (domain headers body header : Bytes)
      → n < length (get_tag header (b'b' ∷ []))
      → NotPassed (check_records v txts domain headers body header)
  unfolding check_records
  check_records-NotPassed [] domain headers body header h = λ e. cc e
  check_records-NotPassed (txt ∷ _) domain headers body header h =
      check_key-NotPassed (load_public_key v txt) domain headers body header h

  if-NotPassed :
      (b : Bool) (x y : Option DkimAuthResult)
      → NotPassed x
      → NotPassed y
      → NotPassed (if b then x else y)
  if-NotPassed true x y h k = h
  if-NotPassed false x y h k = k

  -- What the signer signs, the verifier never passes, whatever follows the header and whatever the
  -- body, where the signer could load its key, its domain, selector and list of headers have no '='
  -- and no ';', its header has no carriage return, and the keys have one size: the verifier hands
  -- over the signature in BASE64 as it stands in the header, which is longer than any signature of
  -- that size.
  pub sign-verify :
      (cfg : DkimSignConfig) (headers body header rest body' : Bytes)
      → sign s cfg headers body ≡ some header
      → is_empty header ≡ false
      → All (λ c. c ≢ 13) header
      → IsValue cfg.domain
      → IsValue cfg.selector
      → IsValue cfg.headers_to_sign
      → NotPassed (verify v (header ++ (crlf ++ rest)) body')
  unfolding verify Signed
  sign-verify cfg headers body header rest body' e h cr d sel hs =
      let (canon, (key, (data_signed, made))) = sign-Signed cfg headers body header e h in
      let bh = s.base64_encode (s.sha256 canon) in
      let sig = s.base64_encode (s.sign_data key data_signed) in
      let tags = get_tag-header_bare cfg bh sig d sel hs (size.hashed canon) (size.plain _) in
      let b : get_tag header (b'b' ∷ []) ≡ sig =
        ap (λ (x : Bytes). get_tag x (b'b' ∷ [])) made ∙ tags.1.1.1 in
      let long : n < length (get_tag header (b'b' ∷ [])) =
        subst (λ (x : Bytes). n < length x) (sym b) (size.encoded _ (size.made key data_signed)) in
      let first : find (text "DKIM-Signature:") (header ++ (crlf ++ rest)) ≡ some 0 =
        ap (λ (x : Bytes). find (text "DKIM-Signature:") (x ++ (crlf ++ rest))) made
        ∙ (ap (find (text "DKIM-Signature:")) (append_assoc (header_bare cfg bh) sig (crlf ++ rest))
            ∙ find-header_bare cfg bh (sig ++ (crlf ++ rest))) in
      let domain = get_tag header (b'd' ∷ []) in
      let selector = get_tag header (b's' ∷ []) in
      rw (first, verify, field_from-crlf header rest cr)
        (if-NotPassed (is_empty domain || is_empty selector)
          (some (verdict DkimResult.perm_error []))
          (check_records v (v.lookup_txt (selector ++ (text "._domainkey." ++ domain))) domain
            (header ++ (crlf ++ rest)) body' header)
          (λ q. cc q)
          (check_records-NotPassed (v.lookup_txt (selector ++ (text "._domainkey." ++ domain)))
            domain (header ++ (crlf ++ rest)) body' header long))
