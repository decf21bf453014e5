-- ===== src/Mime/Tests.antt =====
-- Small MIME texts, as mime/mime_parser.cpp and mime/mime_decoder.cpp read them.
use email_server_backend.Base.{
  ◌≡◌, ◌≢◌, refl, [], ◌∷◌, ◌++◌, arith, Bytes, text, is_empty, is_space, find, starts_with,
  find-here, All,
}
use email_server_backend.Validation.InputValidator.{is_alnum}
use email_server_backend.Mime.Decoder.{
  is_base64, decode_base64, decode_quoted_printable, strtol_hex, hex_digit,
}
use email_server_backend.Mime.Base64.{encode_base64, decode_base64-encode_base64}
use email_server_backend.Mime.Parser.{parse_leaves, parse_part}
use email_server_backend.Mime.ParserLaws.{IsClear, assemble, parse_part-assemble}

decode_base64-encode_base64_example :
    decode_base64 0 0 (encode_base64 (text "=") (text "Hello, world")) ≡ text "Hello, world"
unfolding is_base64 is_alnum text
decode_base64-encode_base64_example =
    decode_base64-encode_base64 0 (text "=") (text "Hello, world") (ground arith) (ground arith)

-- A soft line break is decoded to a zero byte.
soft_line_break : decode_quoted_printable (text "a=\r\nb") ≡ b'a' ∷ 0 ∷ b'b' ∷ []
unfolding decode_quoted_printable text strtol_hex is_space hex_digit
soft_line_break = refl

-- Texts without '-' are clear of a delimiter.
no_dash-IsClear : (b c : Bytes) → (All (λ x. x ≢ b'-') c) → IsClear (text "--" ++ b) c
unfolding text find starts_with
no_dash-IsClear b [] h rest = find-here (text "--" ++ b) rest
no_dash-IsClear b (x ∷ c) h rest = ground (arith, no_dash-IsClear b c h.1 rest)

parse_part-assemble_example :
    (parse_part
      (text "x\n"
        ++ assemble
            (text "--" ++ text "b")
            (text "--\n")
            (text "\nA: 1\n\nhi\n" ∷ text "\n\nho\n" ∷ []))
      (text "b")).children
    ≡ parse_leaves (text "\nA: 1\n\nhi\n" ∷ text "\n\nho\n" ∷ [])
unfolding text is_empty find starts_with
parse_part-assemble_example =
    parse_part-assemble (text "b") (text "x\n") (text "--\n")
      (text "\nA: 1\n\nhi\n" ∷ text "\n\nho\n" ∷ []) refl
      (no_dash-IsClear (text "b") (text "x\n") (ground arith))
      (
        no_dash-IsClear (text "b") (text "\nA: 1\n\nhi\n") (ground arith),
        (no_dash-IsClear (text "b") (text "\n\nho\n") (ground arith), tt),
      )
      refl
