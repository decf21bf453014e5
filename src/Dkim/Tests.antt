-- ===== src/Dkim/Tests.antt =====
-- Runs of the signer and of the verifier under antispam/ with toy libraries.
use email_server_backend.Base.{
  ℕ, ◌≡◌, inl, inr, refl, [], ◌∷◌, ◌++◌, arith, Bytes, text, bytes_eq, bytes_eq_iff, is_empty,
  substr, take, find, starts_with, lower, ◌==◌, if◌then◌else◌, some, none,
}
use email_server_backend.Antispam.Results.{DkimResult}
use email_server_backend.Dkim.Canon.{crlf, normalize, canonicalize_body, canonicalize_headers}
use email_server_backend.Dkim.Lines.{line_feeds}
use email_server_backend.Dkim.BodyLaws.{canonicalize_body_lem}
use email_server_backend.Dkim.Signer.{DkimSignConfig, SignerLibrary, header_bare, sign}
use email_server_backend.Dkim.Verifier.{
  VerifierLibrary, get_tag, field_from, load_public_key, check_signature, check_key, check_records,
  verify,
}
use email_server_backend.Dkim.Tags.{IsPadded, get_tag-header_bare}
use email_server_backend.Dkim.Verdicts.{HasKeySize, NotPassed, verify-body, sign-verify}

canonicalize_body_lem_example :
    (canonicalize_body (13 ∷ 10 ∷ 10 ∷ []) ≡ some crlf)
    × (canonicalize_body (text "" ++ b'x' ∷ 13 ∷ 10 ∷ 10 ∷ []) ≡ (
        if line_feeds (13 ∷ 10 ∷ 10 ∷ []) == 0
        then some (normalize (text "") ++ b'x' ∷ crlf)
        else if is_empty (normalize (text ""))
        then none
        else some (normalize (text "") ++ b'x' ∷ crlf)))
canonicalize_body_lem_example =
    canonicalize_body_lem (text "") (13 ∷ 10 ∷ 10 ∷ []) b'x' (ground arith) (ground arith)
      (inl refl, (inr refl, (inr refl, tt)))

-- A body of one byte and a line feed throws.
one_byte : canonicalize_body (b'x' ∷ 10 ∷ []) ≡ none
unfolding canonicalize_body
one_byte = refl

two_lines : canonicalize_body (text "ab" ++ 10 ∷ 10 ∷ []) ≡ some (text "ab" ++ crlf)
unfolding canonicalize_body text
two_lines = refl

-- The value of a continued header is joined, and its blanks are one.
joins_lines :
    canonicalize_headers (text "Subject:  a" ++ (crlf ++ (text " b" ++ crlf))) (text "subject" ∷ [])
    ≡ text "subject:a b" ∷ []
unfolding canonicalize_headers text lower
joins_lines = refl

abbrev config : DkimSignConfig
unfolding text
config = record {
  domain = text "example.org";
  selector = text "s1";
  private_key_path = text "key.pem";
  headers_to_sign = text "from:to";
}

abbrev encoded_text : Bytes
unfolding text
encoded_text = text "QUJDREVG="

encoded-IsPadded : IsPadded encoded_text
unfolding encoded_text text
encoded-IsPadded = record {
  digits = text "QUJDREV";
  last = b'G';
  padded = refl;
  digits_plain = ground arith;
  last_plain = ground arith;
}

get_tag-header_bare_example :
    let header = header_bare config encoded_text ++ encoded_text in
    (get_tag header (b'd' ∷ []) ≡ config.domain)
    × ((get_tag header (b's' ∷ []) ≡ config.selector)
        × ((get_tag header (b'h' ∷ []) ≡ config.headers_to_sign)
            × (get_tag header (b'b' ∷ []) ≡ encoded_text)))
unfolding config encoded_text text
get_tag-header_bare_example =
    get_tag-header_bare config encoded_text encoded_text (ground arith) (ground arith)
      (ground arith) encoded-IsPadded (ground arith)

-- Signatures have one byte here.
abbrev signer : SignerLibrary ℕ
unfolding encoded_text
signer = record {
  sha256 = λ b. take 1 b;
  base64_encode = λ b. encoded_text;
  load_private_key = λ path. some 7;
  sign_data = λ key d. key ∷ [];
}

abbrev checker : VerifierLibrary ℕ
unfolding text
checker = record {
  lookup_txt = λ name. text "v=DKIM1; p=key" ∷ [];
  read_public_key = λ pem. some 7;
  verify_data = λ key d sig. bytes_eq sig (key ∷ []);
}

signer-HasKeySize : HasKeySize 1 signer checker
unfolding signer checker bytes_eq encoded_text text
signer-HasKeySize = record {
  accepted = λ key d sig e. ground (arith, bytes_eq_iff sig (key ∷ []));
  made = λ key d. refl;
  encoded = λ sig h. ground arith;
  plain = λ sig. ground arith;
  hashed = λ b. encoded-IsPadded;
}

abbrev header : Bytes
unfolding text encoded_text config
header = header_bare config encoded_text ++ encoded_text

signs : sign signer config (text "From: a") (text "hello") ≡ some header
unfolding sign signer header canonicalize_body text
signs = refl

sign-verify_example : NotPassed (verify checker (header ++ (crlf ++ text "From: a")) (text "other"))
unfolding header header_bare text encoded_text config is_empty
sign-verify_example =
    sign-verify signer checker 1 signer-HasKeySize config (text "From: a") (text "hello") header
      (text "From: a") (text "other") signs refl (ground arith) (ground arith) (ground arith)
      (ground arith)

abbrev passing : Bytes
unfolding text
passing = text "DKIM-Signature: d=example.org; s=s1; h=from; b=" ++ (7 ∷ (crlf ++ text "From: a"))

verify-body_example : verify checker passing (text "hello") ≡ verify checker passing (text "forged")
unfolding canonicalize_body text
verify-body_example =
    verify-body checker passing (text "hello") (text "forged") (text "hello" ++ crlf)
      (text "forged" ++ crlf) refl refl

-- This message passes, with the one body and with the other.
passes :
    verify checker passing (text "hello")
    ≡ some (record { result = DkimResult.pass; header_domain = text "example.org" })
unfolding verify checker passing canonicalize_body text find starts_with substr get_tag field_from
    load_public_key is_empty bytes_eq check_signature check_key check_records
passes = refl
