-- ===== src/Mime/Parser.antt =====
-- `MimeParser` and `MimePart` of mime/mime_parser.cpp.
use email_server_backend.Base.{
  ℕ, zero, suc, ◌+◌, ◌-◌, Bool, true, false, not, ◌||◌, List, [], ◌∷◌, ◌++◌, Bytes, text, bytes_eq,
  is_empty, lower, length, take, drop, find, find_from, substr, starts_with, ◌==◌, if◌then◌else◌,
  none, some, Dict, lookup, insert,
}
use email_server_backend.Streams.{split}
use email_server_backend.Mime.Decoder.{decode_transfer_encoding}

-- `headers[key] += more`
unfoldable pub append_header : Bytes → Bytes → Dict Bytes → Dict Bytes
append_header key more headers = elim (lookup key headers) [
  | none ↦ insert key more headers
  | some value ↦ insert key (value ++ more) headers
]

-- The loop over the lines, which ends at an empty one.
unfoldable pub read_headers : List Bytes → Bytes → Dict Bytes → Dict Bytes
unfolding append_header
read_headers [] last_key headers = headers
read_headers (line ∷ lines) last_key headers =
    let folded = read_headers lines last_key (append_header last_key (text " " ++ line) headers) in
    let other = read_headers lines last_key headers in
    if bytes_eq line (text "\r") || is_empty line
    then headers
    else if starts_with (text " ") line || starts_with (text "\t") line
    then folded
    else elim (find (text ":") line) [
      | none ↦ other
      | some pos ↦
          let key = lower (take pos line) in
          read_headers lines key (insert key (drop (pos + 1) line) headers)
    ]

-- The argument, which is taken by reference, is not changed.
unfoldable pub parse_headers : Bytes → Dict Bytes
unfolding read_headers
parse_headers content = read_headers (split b'\n' content) [] []

-- A part with its children, which have none.
pub record Leaf : Type 0 where
  pub headers : Dict Bytes
  pub body : Bytes

pub record MimePart : Type 0 where
  pub headers : Dict Bytes
  pub body : Bytes
  pub children : List Leaf

unfoldable pub is_multipart : Dict Bytes → Bool
is_multipart headers = elim (lookup (text "content-type") headers) [
  | none ↦ false
  | some value ↦ elim (find (text "multipart/") value) [ none ↦ false | some pos ↦ true ]
]

unfoldable pub content_type : Dict Bytes → Bytes
content_type headers = elim (lookup (text "content-type") headers) [
  | none ↦ []
  | some value ↦ value
]

unfoldable pub filename : Dict Bytes → Bytes
filename headers = elim (lookup (text "content-disposition") headers) [
  | none ↦ []
  | some value ↦ elim (find (text "filename=") value) [
    | none ↦ []
    | some pos ↦
        let rest = drop (pos + 9) value in
        if starts_with (text "\"") rest
        then elim (find (text "\"") (drop 1 rest)) [
          | none ↦ drop 1 rest
          | some end ↦ take end (drop 1 rest)
        ]
        else rest
  ]
]

unfoldable pub encoding_of : Dict Bytes → Bytes
encoding_of headers = elim (lookup (text "content-transfer-encoding") headers) [
  | none ↦ text "7bit"
  | some enc ↦ enc
]

-- `parsePart` without a boundary.
unfoldable pub parse_leaf : Bytes → Leaf
unfolding parse_headers encoding_of
parse_leaf content =
    let headers = parse_headers content in
    record { headers = headers; body = decode_transfer_encoding content (encoding_of headers) }

-- The texts between two delimiters, from a position on. Each round begins behind the one before
-- it, so that as many rounds as there are bytes are enough.
unfoldable pub children_from : ℕ → Bytes → Bytes → ℕ → List Bytes
children_from zero delim content pos = []
children_from (suc fuel) delim content pos = elim (find_from delim content pos) [
  | none ↦ []
  | some at ↦
      let start = at + length delim in
      elim (find_from delim content start) [
        | none ↦ []
        | some end ↦ substr content start (end - start) ∷ children_from fuel delim content end
      ]
]

unfoldable pub parse_leaves : List Bytes → List Leaf
parse_leaves [] = []
parse_leaves (c ∷ cs) = parse_leaf c ∷ parse_leaves cs

unfoldable pub parse_part : Bytes → Bytes → MimePart
unfolding parse_headers encoding_of
parse_part content boundary =
    let headers = parse_headers content in
    let delim = text "--" ++ boundary in
    if not (is_empty boundary)
    then record {
      headers = headers;
      body = [];
      children = parse_leaves (children_from (suc (length content)) delim content 0);
    }
    else record {
      headers = headers;
      body = decode_transfer_encoding content (encoding_of headers);
      children = [];
    }

-- The boundary. `front` of an empty string is not a quote.
unfoldable pub boundary_of : Dict Bytes → Bytes
boundary_of headers = elim (lookup (text "content-type") headers) [
  | none ↦ []
  | some value ↦ elim (find (text "boundary=") value) [
    | none ↦ []
    | some pos ↦
        let boundary = drop (pos + 9) value in
        if starts_with (text "\"") boundary
        then if length boundary == 1 then [] else substr boundary 1 (length boundary - 2)
        else boundary
  ]
]

pub record MimeMessage : Type 0 where
  pub headers : Dict Bytes
  pub root : MimePart

unfoldable pub parse : Bytes → MimeMessage
parse raw =
    let headers = parse_headers raw in
    record { headers = headers; root = parse_part raw (boundary_of headers) }
