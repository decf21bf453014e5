-- ===== src/Validation/InputValidator.antt =====
-- `InputValidator` of core/input_validator.cpp: names, strings and paths. The regular expressions
-- of
-- the class are character classes. `fs::canonical` is a parameter; paths are those of Windows.
use email_server_backend.Base.{
  ℕ, zero, suc, ◌+◌, Bool, true, false, not, ◌&&◌, ◌||◌, [], ◌∷◌, ◌++◌, Bytes, text, is_empty,
  length, take, drop, find, starts_with, ends_with, bytes_eq, leb, ltb, ◌==◌, if◌then◌else◌, Option,
  none, some,
}

-- `std::isalnum` in the "C" locale.
unfoldable pub is_alnum : ℕ → Bool
is_alnum c = leb b'0' c && leb c b'9' || (leb b'A' c && leb c b'Z' || leb b'a' c && leb c b'z')

-- [a-zA-Z0-9._-]
unfoldable pub is_name_char : ℕ → Bool
is_name_char c = is_alnum c || (c == b'_' || (c == b'-' || c == b'.'))

unfoldable pub all_name_chars : Bytes → Bool
all_name_chars [] = true
all_name_chars (c ∷ s) = is_name_char c && all_name_chars s

unfoldable pub is_valid_username : Bytes → Bool
is_valid_username s = if is_empty s || ltb 64 (length s) then false else all_name_chars s

unfoldable pub keep_name_chars : Bytes → Bytes
keep_name_chars [] = []
keep_name_chars (c ∷ s) = let rest = keep_name_chars s in if is_name_char c then c ∷ rest else rest

unfoldable pub sanitize_username : Bytes → Bytes
sanitize_username s =
    let kept = keep_name_chars s in if ltb 64 (length kept) then take 64 kept else kept

-- `std::isprint` in the "C" locale.
unfoldable pub is_print : ℕ → Bool
is_print c = leb 32 c && leb c 126

unfoldable pub is_dangerous : ℕ → Bool
is_dangerous c =
    c == b'<'
    || (c == b'>'
        || (c == b'"'
            || (c == b'\''
                || (c == b'&' || (c == b';' || (c == b'|' || (c == b'`' || c == b'$')))))))

unfoldable pub sanitize_string : Bool → Bytes → Bytes
sanitize_string allow_spaces [] = []
sanitize_string allow_spaces (c ∷ s) =
    let rest = sanitize_string allow_spaces s in
    if is_print c && ((allow_spaces || not (c == b' ')) && not (is_dangerous c))
    then c ∷ rest
    else rest

abbrev pub contains : Bytes → Bytes → Bool
contains p s = elim (find p s) [ none ↦ false | some i ↦ true ]

unfoldable pub contains_path_traversal : Bytes → Bool
contains_path_traversal s =
    contains (text "..") s
    || (contains (text "//") s || (contains (text "\\") s || starts_with (text "/") s))

-- `std::replace` of backslashes by slashes.
unfoldable pub with_slashes : Bytes → Bytes
with_slashes [] = []
with_slashes (c ∷ s) = (if c == b'\\' then b'/' else c) ∷ with_slashes s

unfoldable pub is_letter : ℕ → Bool
is_letter c = leb b'A' c && leb c b'Z' || leb b'a' c && leb c b'z'

-- The drive that a path names, "D:", or nothing. The right side of the `/` below has no backslash
-- and no slash in front, and so no other root name.
unfoldable pub drive : Bytes → Bytes
drive [] = []
drive (c ∷ []) = []
drive (c ∷ d ∷ s) = if is_letter c && d == b':' then c ∷ d ∷ [] else []

-- `base / path` is `path` where that is absolute, "D:/a", or names another drive.
unfoldable pub replaces : Bytes → Bytes → Bool
replaces base path =
    let d = drive path in
    not (is_empty d)
    && (starts_with (text "/") (drop (length d) path) || not (bytes_eq d (drive base)))

-- A backslash is put behind a file name.
unfoldable pub with_preferred : Bytes → Bytes
with_preferred base =
    if ends_with (text "/") base || (ends_with (text "\\") base || bytes_eq base (drive base))
    then base
    else base ++ text "\\"

-- `fs::path::operator/` for such a right side.
unfoldable pub append_path : Bytes → Bytes → Bytes
append_path base path =
    if replaces base path then path else with_preferred base ++ drop (length (drive path)) path

-- `fs::canonical` of the base directory, or `none` where it throws.
unfoldable pub is_valid_path : (Bytes → Option Bytes) → Bytes → Bytes → Bool
is_valid_path canonical path base_dir =
    if is_empty path
    then false
    else if contains_path_traversal path
    then false
    else elim (canonical base_dir) [
      | none ↦ false
      | some base ↦ starts_with (with_slashes base) (with_slashes (append_path base path))
    ]

-- Takes out ".." as long as it is found. Each round makes the string shorter, so that as many
-- rounds as it has bytes are enough.
unfoldable pub erase_dots : ℕ → Bytes → Bytes
erase_dots zero s = s
erase_dots (suc fuel) s = elim (find (text "..") s) [
  | none ↦ s
  | some i ↦ erase_dots fuel (take i s ++ drop (i + 2) s)
]

unfoldable pub erase_backslashes : Bytes → Bytes
erase_backslashes [] = []
erase_backslashes (c ∷ s) = let rest = erase_backslashes s in if c == b'\\' then rest else c ∷ rest

unfoldable pub erase_slashes : Bytes → Bytes
erase_slashes [] = []
erase_slashes (c ∷ s) = let rest = erase_slashes s in if c == b'/' then rest else c ∷ s

unfoldable pub sanitize_path : (Bytes → Option Bytes) → Bytes → Bytes → Bytes
unfolding erase_dots erase_backslashes erase_slashes
sanitize_path canonical path base_dir =
    let clean = erase_slashes (erase_backslashes (erase_dots (length path) path)) in
    if is_valid_path canonical clean base_dir then clean else []
