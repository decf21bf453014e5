-- ===== src/Dkim/Canon.antt =====
-- antispam/dkim_canon.cpp. A call of `substr` behind the end of a string throws, which is `none`.
use email_server_backend.Base.{
  ℕ, zero, suc, ◌+◌, ◌-◌, Bool, false, not, ◌||◌, ◌&&◌, List, [], ◌∷◌, ◌++◌, reverse, Bytes, lower,
  bytes_eq, is_empty, substr, drop, find, length, ltb, ◌==◌, if◌then◌else◌, Option, none, some,
}
use email_server_backend.Streams.{split}

abbrev pub crlf : Bytes
crlf = 13 ∷ 10 ∷ []

-- `c == ' ' || c == '\t'`.
abbrev pub is_wsp : ℕ → Bool
is_wsp c = c == 32 || c == 9

unfoldable pub compress_wsp : Bool → Bytes → Bytes
compress_wsp in_wsp [] = []
compress_wsp in_wsp (c ∷ cs) =
    let rest = compress_wsp (is_wsp c) cs in
    if is_wsp c then (if in_wsp then rest else 32 ∷ rest) else c ∷ rest

-- The first loop of `canonicalizeBodyRelaxed`.
unfoldable pub normalize : Bytes → Bytes
normalize [] = []
normalize (c ∷ cs) =
    let rest = normalize cs in
    if c == 13 then rest else if c == 10 then 13 ∷ 10 ∷ rest else c ∷ rest

-- Whether a string has two bytes or more and ends in CRLF.
unfoldable pub ends_line : Bytes → Bool
unfolding substr bytes_eq
ends_line b = if ltb (length b) 2 then false else bytes_eq (substr b (length b - 2) 2) crlf

-- The second loop, with fuel; it erases two bytes in each round. At the position 1 the call of
-- `substr` is behind the end, since 1 - 2 wraps around.
unfoldable pub trim_lines : ℕ → Bytes → Option Bytes
unfolding ends_line substr bytes_eq
trim_lines zero b = some b
trim_lines (suc fuel) b =
    let pos = length b - 2 in
    let rest = trim_lines fuel (substr b 0 pos) in
    if not (ends_line b)
    then some b
    else if pos == 0
    then some b
    else if pos == 1
    then none
    else if bytes_eq (substr b (pos - 2) 2) crlf
    then rest
    else some b

unfoldable pub end_with_line : Bytes → Bytes
unfolding ends_line
end_with_line b = if ends_line b then b else b ++ crlf

unfoldable pub canonicalize_body : Bytes → Option Bytes
unfolding normalize trim_lines end_with_line
canonicalize_body body =
    let b = normalize body in
    elim (trim_lines (length b) b) [ none ↦ none | some t ↦ some (end_with_line t) ]

-- `line.pop_back()` for a line that ends in '\r'.
unfoldable pub pop_cr : Bytes → Bytes
unfolding is_empty
pop_cr [] = []
pop_cr (c ∷ cs) = let rest = pop_cr cs in if is_empty cs && c == 13 then [] else c ∷ rest

abbrev if_not_empty : Bytes → List Bytes → List Bytes
if_not_empty s rest = if is_empty s then rest else s ∷ rest

-- The loop that joins the continuation lines, with the line so far.
unfoldable pub unfold_lines : Bytes → List Bytes → List Bytes
unfolding pop_cr is_empty
unfold_lines current [] = if_not_empty current []
unfold_lines current (raw ∷ rest) = elim (pop_cr raw) [
  | [] ↦ if_not_empty current (unfold_lines [] rest)
  | c ∷ cs ↦
      if is_wsp c
      then unfold_lines (current ++ 32 ∷ cs) rest
      else if_not_empty current (unfold_lines (c ∷ cs) rest)
]

-- `value.erase(0, value.find_first_not_of(" \t"))`.
unfoldable pub drop_wsp : Bytes → Bytes
drop_wsp [] = []
drop_wsp (c ∷ cs) = if is_wsp c then drop_wsp cs else c ∷ cs

-- `value.erase(value.find_last_not_of(" \t") + 1)`.
unfoldable pub drop_last_wsp : Bytes → Bytes
unfolding is_empty
drop_last_wsp [] = []
drop_last_wsp (c ∷ cs) =
    let rest = drop_last_wsp cs in if is_empty rest && is_wsp c then [] else c ∷ rest

-- The last header of the name; the lines come last first.
unfoldable pub find_header : Bytes → List Bytes → List Bytes
unfolding find substr lower bytes_eq drop_wsp drop_last_wsp compress_wsp
find_header want [] = []
find_header want (line ∷ lines) =
    let others = find_header want lines in
    elim (find (b':' ∷ []) line) [
      | none ↦ others
      | some pos ↦
          if bytes_eq (lower (substr line 0 pos)) want
          then (lower (substr line 0 pos)
              ++ b':' ∷ compress_wsp false (drop_last_wsp (drop_wsp (drop (pos + 1) line))))
            ∷ []
          else others
    ]

-- The headers of these names, in this order.
unfoldable pub find_headers : List Bytes → List Bytes → List Bytes
unfolding find_header lower
find_headers [] lines = []
find_headers (name ∷ names) lines = find_header (lower name) lines ++ find_headers names lines

unfoldable pub canonicalize_headers : Bytes → List Bytes → List Bytes
unfolding unfold_lines find_headers split
canonicalize_headers headers names =
    find_headers (reverse names) (reverse (unfold_lines [] (split 10 headers)))
