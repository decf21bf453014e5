-- ===== src/Mime/Decoder.antt =====
-- `MimeDecoder::decodeTransferEncoding` of mime/mime_decoder.cpp.
use email_server_backend.Base.{
  ℕ, ◌+◌, ◌-◌, ◌*◌, ◌/◌, ◌%◌, ◌^◌, Bool, ◌&&◌, ◌||◌, [], ◌∷◌, Bytes, text, bytes_eq, is_space,
  lower, find, leb, ◌==◌, if◌then◌else◌, Option, none, some,
}
use email_server_backend.Validation.InputValidator.{is_alnum}

unfoldable pub is_base64 : ℕ → Bool
is_base64 c = is_alnum c || (c == b'+' || c == b'/')

abbrev pub table : Bytes
unfolding text
table = text "ABCDEFGHIJKLMNOPQRSTUVWXYZabcdefghijklmnopqrstuvwxyz0123456789+/"

-- The position of the byte in the table; `npos` does not occur for the bytes that are looked up.
unfoldable pub table_find : ℕ → ℕ
table_find c = elim (find (c ∷ []) table) [ none ↦ 2 ^ 32 - 1 | some i ↦ i ]

-- The loop over base64 text. `val` is the `int` of 32 bits, which wraps around, and `bits` is
-- `valb + 8`, the number of bits that are not yet written.
unfoldable pub decode_base64 : ℕ → ℕ → Bytes → Bytes
decode_base64 val bits [] = []
decode_base64 val bits (c ∷ cs) =
    let val' = (val * 64 + table_find c) % 2 ^ 32 in
    let skipped = decode_base64 val bits cs in
    let kept = decode_base64 val' (bits + 6) cs in
    let written = decode_base64 val' (bits + 6 - 8) cs in
    if is_base64 c
    then if leb 8 (bits + 6) then val' / 2 ^ (bits + 6 - 8) % 256 ∷ written else kept
    else skipped

-- The digit of base 16, if it is one.
unfoldable pub hex_digit : ℕ → Option ℕ
hex_digit c =
    if leb b'0' c && leb c b'9'
    then some (c - b'0')
    else if leb b'A' c && leb c b'F'
    then some (c - b'A' + 10)
    else if leb b'a' c && leb c b'f'
    then some (c - b'a' + 10)
    else none

abbrev digit_or_zero : ℕ → ℕ
digit_or_zero c = elim (hex_digit c) [ none ↦ 0 | some d ↦ d ]

-- `static_cast<char>(std::strtol(hex, nullptr, 16))` of two bytes: white space and a sign may
-- stand first, and the number ends where no digit follows.
unfoldable pub strtol_hex : ℕ → ℕ → ℕ
unfolding hex_digit is_space
strtol_hex a b =
    if is_space a
    then digit_or_zero b
    else if a == b'+'
    then digit_or_zero b
    else if a == b'-'
    then (256 - digit_or_zero b) % 256
    else elim (hex_digit a) [
      | none ↦ 0
      | some d ↦ elim (hex_digit b) [ none ↦ d | some e ↦ 16 * d + e ]
    ]

unfoldable pub decode_quoted_printable : Bytes → Bytes
unfolding strtol_hex
decode_quoted_printable [] = []
decode_quoted_printable (c ∷ []) = c ∷ []
decode_quoted_printable (c ∷ d ∷ []) = c ∷ d ∷ []
decode_quoted_printable (c ∷ d ∷ e ∷ s) =
    let escaped = decode_quoted_printable s in
    let plain = decode_quoted_printable (d ∷ e ∷ s) in
    if c == b'=' then strtol_hex d e ∷ escaped else c ∷ plain

unfoldable pub decode_transfer_encoding : Bytes → Bytes → Bytes
unfolding decode_base64 decode_quoted_printable
decode_transfer_encoding content encoding =
    let enc = lower encoding in
    if bytes_eq enc (text "7bit") || (bytes_eq enc (text "8bit") || bytes_eq enc (text "binary"))
    then content
    else if bytes_eq enc (text "quoted-printable")
    then decode_quoted_printable content
    else if bytes_eq enc (text "base64")
    then decode_base64 0 0 content
    else content
