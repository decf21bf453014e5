-- ===== src/Dkim/Signer.antt =====
-- antispam/dkim_signer.cpp. Reading and decoding the key, SHA-256, the signature and BASE64, all of
-- OpenSSL, are parameters.
use email_server_backend.Base.{
  List, [], ◌∷◌, ◌++◌, Bytes, text, is_empty, if◌then◌else◌, Option, none, some,
}
use email_server_backend.Streams.{split}
use email_server_backend.Dkim.Canon.{crlf, canonicalize_body, canonicalize_headers}

pub record DkimSignConfig : Type 0 where
  pub domain : Bytes
  pub selector : Bytes
  pub private_key_path : Bytes
  pub headers_to_sign : Bytes

-- `sign_data key data` is the RSA signature, and `load_private_key path` the key, if there is one.
pub record SignerLibrary (Key : Type 0) : Type 0 where
  pub sha256 : Bytes → Bytes
  pub base64_encode : Bytes → Bytes
  pub load_private_key : Bytes → Option Key
  pub sign_data : Key → Bytes → Bytes

unfoldable pub filter_names : List Bytes → List Bytes
unfolding is_empty
filter_names [] = []
filter_names (t ∷ ts) = let rest = filter_names ts in if is_empty t then rest else t ∷ rest

unfoldable pub split_header_names : Bytes → List Bytes
unfolding filter_names split
split_header_names h = filter_names (split b':' h)

unfoldable pub header_bare : DkimSignConfig → Bytes → Bytes
unfolding text
header_bare cfg bh =
    text "DKIM-Signature: v=1; a=rsa-sha256; c=relaxed/relaxed; "
    ++ (text "d="
        ++ (cfg.domain
            ++ (text "; "
                ++ (text "s="
                    ++ (cfg.selector
                        ++ (text "; "
                            ++ (text "h="
                                ++ (cfg.headers_to_sign
                                    ++ (text "; "
                                        ++ (text "bh=" ++ (bh ++ (text "; " ++ text "b="))))))))))))

unfoldable pub concat : List Bytes → Bytes
concat [] = []
concat (h ∷ hs) = h ++ concat hs

module _ {Key : Type 0} (lib : SignerLibrary Key) where
  -- `none` is an exception of the canonicalization of the body.
  unfoldable pub sign : DkimSignConfig → Bytes → Bytes → Option Bytes
  sign cfg headers body = elim (canonicalize_body body) [
    | none ↦ none
    | some canon_body ↦
        let bare = header_bare cfg (lib.base64_encode (lib.sha256 canon_body)) in
        let names = split_header_names cfg.headers_to_sign in
        let data_to_sign = concat (canonicalize_headers (headers ++ (crlf ++ bare)) names) in
        elim (lib.load_private_key cfg.private_key_path) [
          | none ↦ some []
          | some key ↦ some (bare ++ lib.base64_encode (lib.sign_data key data_to_sign))
        ]
  ]
