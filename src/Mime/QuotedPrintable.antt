-- ===== src/Mime/QuotedPrintable.antt =====
-- Quoted-printable text is decoded by mime/mime_decoder.cpp to what was encoded.
use email_server_backend.Base.{
  ℕ, ◌+◌, ◌-◌, ◌/◌, ◌%◌, ◌<◌, ◌≡◌, refl, Bool, false, ◌||◌, [], ◌∷◌, arith, Bytes, is_space, All,
  ltb, ◌==◌, if◌then◌else◌,
}
use email_server_backend.Mime.Decoder.{hex_digit, strtol_hex, decode_quoted_printable}

-- The encoder of RFC 2045: "=" and a choice of other bytes are written in base 16.
abbrev pub hex : ℕ → ℕ
hex d = if ltb d 10 then b'0' + d else b'A' + (d - 10)

abbrev pub encode : (ℕ → Bool) → Bytes → Bytes
encode escapes [] = []
encode escapes (c ∷ s) =
    let rest = encode escapes s in
    if escapes c || c == b'=' then b'=' ∷ hex (c / 16) ∷ hex (c % 16) ∷ rest else c ∷ rest

strtol_hex-hex : (c : ℕ) → c < 256 → strtol_hex (hex (c / 16)) (hex (c % 16)) ≡ c
unfolding strtol_hex hex_digit is_space
strtol_hex-hex c h = ground (arith, h)

decode_quoted_printable-plain :
    (c : ℕ) (s : Bytes)
    → (c == b'=') ≡ false
    → decode_quoted_printable (c ∷ s) ≡ c ∷ decode_quoted_printable s
unfolding decode_quoted_printable
decode_quoted_printable-plain c [] h = refl
decode_quoted_printable-plain c (d ∷ []) h = refl
decode_quoted_printable-plain c (d ∷ e ∷ s) h = rw h refl

-- Quoted-printable text is decoded to the bytes that were encoded, whichever bytes besides "=" the
-- encoder chose to write in base 16.
pub decode_quoted_printable-encode :
    (escapes : ℕ → Bool) (s : Bytes)
    → All (λ c. c < 256) s
    → decode_quoted_printable (encode escapes s) ≡ s
unfolding decode_quoted_printable
decode_quoted_printable-encode escapes [] h = refl
decode_quoted_printable-encode escapes (c ∷ s) (h, hs) = ground (
  arith,
  strtol_hex-hex c h,
  decode_quoted_printable-plain c (encode escapes s),
  decode_quoted_printable-encode escapes s hs,
)
