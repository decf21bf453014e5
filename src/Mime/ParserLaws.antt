-- ===== src/Mime/ParserLaws.antt =====
-- What `MimeParser` of mime/mime_parser.cpp finds in a message.
use email_server_backend.Base.{
  ℕ, zero, suc, ◌+◌, ◌-◌, ◌<◌, ◌≡◌, ◌≢◌, ◌∙◌, refl, ap, true, false, ◌||◌, List, [], ◌∷◌, ◌++◌,
  append_assoc, arith, Bytes, text, bytes_eq, is_empty, lower, to_lower, length, length-append,
  take-append, drop-append, find, find_from, find-here, substr, starts_with, All, none, some,
  lookup, insert,
}
use email_server_backend.Streams.{split, split-append}
use email_server_backend.Mime.Decoder.{decode_transfer_encoding}
use email_server_backend.Mime.Parser.{
  read_headers, parse_headers, encoding_of, parse_leaf, children_from, parse_leaves, parse_part,
}

-- The body of a multipart text: each child follows a delimiter, and so does the end.
abbrev pub assemble : Bytes → Bytes → List Bytes → Bytes
assemble delim end [] = delim ++ end
assemble delim end (c ∷ cs) = delim ++ (c ++ assemble delim end cs)

-- The delimiter is first found behind the text, whatever follows.
abbrev pub IsClear : Bytes → Bytes → Type 0
IsClear delim c = (rest : Bytes) → find delim (c ++ (delim ++ rest)) ≡ some (length c)

find_from-behind :
    (delim pre s : Bytes) (n : ℕ)
    → find delim s ≡ some n
    → find_from delim (pre ++ s) (length pre) ≡ some (length pre + n)
unfolding find_from
find_from-behind delim pre s n e = rw (drop-append pre s, e) refl

assemble-delim :
    (delim end : Bytes) (cs : List Bytes) → (rest : Bytes) × (assemble delim end cs ≡ delim ++ rest)
assemble-delim delim end [] = (end, refl)
assemble-delim delim end (c ∷ cs) = (c ++ assemble delim end cs, refl)

module _ (fuel : ℕ) (delim s : Bytes) (pos at : ℕ) (found : find_from delim s pos ≡ some at) where
  children_from-end :
      find_from delim s (at + length delim) ≡ none → children_from (suc fuel) delim s pos ≡ []
  unfolding children_from
  children_from-end e = rw (found, children_from) (rw (e, children_from) refl)

  children_from-next :
      (end : ℕ)
      → find_from delim s (at + length delim) ≡ some end
      → children_from (suc fuel) delim s pos
        ≡ substr s (at + length delim) (end - (at + length delim)) ∷ children_from fuel delim s end
  unfolding children_from
  children_from-next end e = rw (found, children_from) (rw (e, children_from) refl)

module _ (delim end pre : Bytes) where
  -- The delimiter in front of a text is found where the text before it ends.
  here : (rest : Bytes) → find_from delim (pre ++ (delim ++ rest)) (length pre) ≡ some (length pre)
  here rest =
      find_from-behind delim pre (delim ++ rest) 0 (find-here delim rest) ∙ ap some (omega arith)

  behind :
      (s : Bytes) (n : ℕ)
      → find delim s ≡ some n
      → find_from delim (pre ++ (delim ++ s)) (length pre + length delim)
        ≡ some (length pre + length delim + n)
  behind s n e =
      rw (← append_assoc pre delim s, ← length-append pre delim)
        (find_from-behind delim (pre ++ delim) s n e)

  behind_none :
      (s : Bytes)
      → find delim s ≡ none
      → find_from delim (pre ++ (delim ++ s)) (length pre + length delim) ≡ none
  unfolding find_from
  behind_none s e =
      rw (← append_assoc pre delim s, ← length-append pre delim, drop-append (pre ++ delim) s, e)
        refl

  cut_out :
      (c s : Bytes)
      → substr
          (pre ++ (delim ++ (c ++ s)))
          (length pre + length delim)
          (length pre + length delim + length c - (length pre + length delim))
        ≡ c
  unfolding substr
  cut_out c s =
      let n : length pre + length delim + length c - (length pre + length delim) ≡ length c =
        omega arith in
      rw
        (
          n,
          ← append_assoc pre delim (c ++ s),
          ← length-append pre delim,
          drop-append (pre ++ delim) (c ++ s),
        )
        (take-append c s)

children_from-assemble :
    (fuel : ℕ) (delim end pre : Bytes) (cs : List Bytes)
    → length cs < fuel
    → find delim end ≡ none
    → All (IsClear delim) cs
    → children_from fuel delim (pre ++ assemble delim end cs) (length pre) ≡ cs
children_from-assemble zero delim end pre cs less e h = absurd (omega (arith, less))
children_from-assemble (suc fuel) delim end pre [] less e h =
    children_from-end fuel delim (pre ++ (delim ++ end)) (length pre) (length pre)
      (here delim end pre end) (behind_none delim end pre end e)
children_from-assemble (suc fuel) delim end pre (c ∷ cs) less e (h, hs) =
    let rest = assemble delim end cs in
    let split_rest = assemble-delim delim end cs in
    let clear : find delim (c ++ rest) ≡ some (length c) = rw split_rest.1 (h split_rest.0) in
    let before = pre ++ (delim ++ c) in
    let whole : pre ++ (delim ++ (c ++ rest)) ≡ before ++ rest = simp append_assoc refl in
    let ahead : length pre + length delim + length c ≡ length before =
      omega (arith, length-append pre (delim ++ c), length-append delim c) in
    children_from-next fuel delim (pre ++ (delim ++ (c ++ rest))) (length pre) (length pre)
      (here delim end pre (c ++ rest)) (length pre + length delim + length c)
      (behind delim end pre (c ++ rest) (length c) clear)
    ∙ rw (cut_out delim end pre c rest) (
        ap (λ xs. c ∷ xs)
          (rw (whole, ahead)
            (children_from-assemble fuel delim end before cs (omega (arith, less)) e hs)))

children_from-start :
    (fuel : ℕ) (delim s : Bytes) (pos pos' at : ℕ)
    → find_from delim s pos ≡ some at
    → find_from delim s pos' ≡ some at
    → children_from (suc fuel) delim s pos ≡ children_from (suc fuel) delim s pos'
unfolding children_from
children_from-start fuel delim s pos pos' at e e' = rw (e, e', children_from) refl

length-assemble :
    (d : ℕ) (delim end : Bytes) (cs : List Bytes) → length cs < length (assemble (d ∷ delim) end cs)
length-assemble d delim end [] = omega arith
length-assemble d delim end (c ∷ cs) = omega (
  arith,
  length-assemble d delim end cs,
  length-append delim (c ++ assemble (d ∷ delim) end cs),
  length-append c (assemble (d ∷ delim) end cs),
)

find_from-zero : (delim s : Bytes) (n : ℕ) → find delim s ≡ some n → find_from delim s 0 ≡ some n
unfolding find_from
find_from-zero delim s n e = rw e (ap some (omega arith))

-- The children of a part with a boundary are the texts between the delimiters, each parsed by
-- itself: where the delimiter occurs only where it was put, any list of texts is taken apart
-- again, whatever stands before the first delimiter and behind the last one.
pub parse_part-assemble :
    (boundary pre end : Bytes) (cs : List Bytes)
    → is_empty boundary ≡ false
    → IsClear (text "--" ++ boundary) pre
    → All (IsClear (text "--" ++ boundary)) cs
    → find (text "--" ++ boundary) end ≡ none
    → (parse_part (pre ++ assemble (text "--" ++ boundary) end cs) boundary).children
      ≡ parse_leaves cs
unfolding parse_part text
parse_part-assemble boundary pre end cs b p h e =
    let delim = text "--" ++ boundary in
    let content = pre ++ assemble delim end cs in
    let first = assemble-delim delim end cs in
    let clear : find delim content ≡ some (length pre) = rw first.1 (p first.0) in
    let located : find_from delim content (length pre) ≡ some (length pre) =
      rw first.1 (here delim end pre first.0) in
    let enough : length cs < suc (length content) = omega (
      arith,
      length-assemble b'-' (b'-' ∷ boundary) end cs,
      length-append pre (assemble delim end cs),
    ) in
    rw b (
      ap parse_leaves (
        children_from-start (length content) delim content 0 (length pre) (length pre)
          (find_from-zero delim content (length pre) clear) located
        ∙ children_from-assemble (suc (length content)) delim end pre cs enough e h))

decode_transfer_encoding-space :
    (content value : Bytes) → decode_transfer_encoding content (b' ' ∷ value) ≡ content
unfolding decode_transfer_encoding lower to_lower text bytes_eq
decode_transfer_encoding-space content value = refl

-- The line of the header "Content-Transfer-Encoding", with a space behind the colon.
abbrev pub encoding_line : Bytes → Bytes
encoding_line value = text "Content-Transfer-Encoding: " ++ value

encoding_read :
    (value blank : Bytes) (lines : List Bytes)
    → (bytes_eq blank (text "\r") || is_empty blank) ≡ true
    → encoding_of (read_headers (encoding_line value ∷ blank ∷ lines) [] []) ≡ b' ' ∷ value
unfolding encoding_of read_headers text bytes_eq is_empty starts_with find lower to_lower lookup
    insert
encoding_read value blank lines b = rw b refl

encoding_split :
    (value s : Bytes)
    → All (λ c. c ≢ b'\n') value
    → split b'\n' (encoding_line value ++ b'\n' ∷ s) ≡ encoding_line value ∷ split b'\n' s
unfolding text
encoding_split value s v = split-append b'\n' (encoding_line value) s (ground (arith, v))

-- A part whose header names its encoding with a space behind the colon, as headers are written, is
-- not decoded, whatever the encoding: its body is the whole part, the header included. The lines
-- may end in LF or in CR LF.
pub parse_leaf-undecoded :
    (value blank body : Bytes)
    → All (λ c. c ≢ b'\n') value
    → All (λ c. c ≢ b'\n') blank
    → (bytes_eq blank (text "\r") || is_empty blank) ≡ true
    → let content = encoding_line value ++ b'\n' ∷ (blank ++ b'\n' ∷ body) in
      (parse_leaf content).body ≡ content
unfolding parse_leaf parse_headers
parse_leaf-undecoded value blank body v k b =
    let content = encoding_line value ++ b'\n' ∷ (blank ++ b'\n' ∷ body) in
    let lines : split b'\n' content ≡ encoding_line value ∷ blank ∷ split b'\n' body =
      encoding_split value (blank ++ b'\n' ∷ body) v
      ∙ ap (λ ls. encoding_line value ∷ ls) (split-append b'\n' blank body k) in
    let enc : encoding_of (parse_headers content) ≡ b' ' ∷ value =
      rw lines (encoding_read value blank (split b'\n' body) b) in
    ap (decode_transfer_encoding content) enc ∙ decode_transfer_encoding-space content value
