-- ===== src/Dkim/Verifier.antt =====
-- antispam/dkim_verifier.cpp. The TXT records of a name, the decoding of a key and the check of a
-- signature are parameters.
use email_server_backend.Base.{
  ◌+◌, Bool, ◌||◌, List, [], ◌∷◌, ◌++◌, Bytes, text, is_empty, substr, drop, find, length,
  if◌then◌else◌, Option, none, some,
}
use email_server_backend.Streams.{split}
use email_server_backend.Antispam.Results.{DkimResult, DkimAuthResult}
use email_server_backend.Dkim.Canon.{crlf, canonicalize_body, canonicalize_headers}

-- `PEM_read_bio_PUBKEY`, and `EVP_DigestVerifyFinal` over the data with the signature.
pub record VerifierLibrary (Key : Type 0) : Type 0 where
  pub lookup_txt : Bytes → List Bytes
  pub read_public_key : Bytes → Option Key
  pub verify_data : Key → Bytes → Bytes → Bool

-- The string up to a delimiter behind the position, or to its end.
unfoldable pub field_from : Bytes → Bytes → Bytes
unfolding find substr
field_from delimiter s = elim (find delimiter s) [ none ↦ s | some n ↦ substr s 0 n ]

unfoldable pub get_tag : Bytes → Bytes → Bytes
unfolding find field_from
get_tag h tag = elim (find (tag ++ b'=' ∷ []) h) [
  | none ↦ []
  | some pos ↦ field_from (b';' ∷ []) (drop (pos + (length tag + 1)) h)
]

-- What the loop hands over: each header with a CRLF.
unfoldable pub verified_data : List Bytes → Bytes
verified_data [] = []
verified_data (h ∷ hs) = h ++ (crlf ++ verified_data hs)

abbrev pub verdict : DkimResult → Bytes → DkimAuthResult
verdict r domain = record { result = r; header_domain = domain }

module _ {Key : Type 0} (lib : VerifierLibrary Key) where
  unfoldable pub load_public_key : Bytes → Option Key
  unfolding find text
  load_public_key txt = elim (find (text "p=") txt) [
    | none ↦ none
    | some p ↦ lib.read_public_key (drop (p + 2) txt)
  ]

  -- From line 83 on.
  unfoldable pub check_signature : Key → Bytes → Bytes → Bytes → Bytes → Option DkimAuthResult
  check_signature key domain headers body dkim_header = elim (canonicalize_body body) [
    | none ↦ none
    | some _ ↦
        let names = split b':' (get_tag dkim_header (b'h' ∷ [])) in
        let signed = verified_data (canonicalize_headers headers names) in
        let ok = lib.verify_data key signed (get_tag dkim_header (b'b' ∷ [])) in
        some (verdict (if ok then DkimResult.pass else DkimResult.fail) domain)
  ]

  unfoldable pub check_key : Option Key → Bytes → Bytes → Bytes → Bytes → Option DkimAuthResult
  check_key none domain headers body dkim_header = some (verdict DkimResult.perm_error domain)
  check_key (some key) domain headers body dkim_header =
      check_signature key domain headers body dkim_header

  unfoldable pub check_records : List Bytes → Bytes → Bytes → Bytes → Bytes → Option DkimAuthResult
  check_records [] domain headers body dkim_header = some (verdict DkimResult.temp_error domain)
  check_records (txt ∷ _) domain headers body dkim_header =
      check_key (load_public_key txt) domain headers body dkim_header

  -- `none` is an exception of the canonicalization of the body.
  unfoldable pub verify : Bytes → Bytes → Option DkimAuthResult
  unfolding is_empty
  verify headers body = elim (find (text "DKIM-Signature:") headers) [
    | none ↦ some (verdict DkimResult.none [])
    | some pos ↦
        let dkim_header = field_from crlf (drop pos headers) in
        let domain = get_tag dkim_header (b'd' ∷ []) in
        let selector = get_tag dkim_header (b's' ∷ []) in
        if is_empty domain || is_empty selector
        then some (verdict DkimResult.perm_error [])
        else check_records (lib.lookup_txt (selector ++ (text "._domainkey." ++ domain))) domain
            headers body dkim_header
  ]
