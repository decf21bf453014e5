-- ===== src/Validation/PathLaws.antt =====
-- `isValidPath` and `sanitizePath` of core/input_validator.cpp.
use email_server_backend.Base.{
  ℕ, zero, suc, ◌≡◌, refl, ap, true, false, not, ◌&&◌, ◌||◌, [], ◌∷◌, ◌++◌, append_assoc, arith,
  Bytes, text, is_empty, length, find, starts_with, starts_with-append, ends_with, bytes_eq, drop,
  ◌==◌, if◌then◌else◌, Bool-cases, Option, Option-cases, none, some, inl, inr,
}
use email_server_backend.Validation.InputValidator.{
  contains, contains_path_traversal, with_slashes, is_valid_path, replaces, with_preferred,
  append_path, drive, erase_dots, erase_backslashes, erase_slashes, sanitize_path,
}

with_slashes-append : (a b : Bytes) → with_slashes (a ++ b) ≡ with_slashes a ++ with_slashes b
unfolding with_slashes
with_slashes-append [] b = refl
with_slashes-append (c ∷ a) b =
    ap (λ s. (if c == b'\\' then b'/' else c) ∷ s) (with_slashes-append a b)

starts_with-preferred :
    (a b : Bytes) → starts_with (with_slashes a) (with_slashes (with_preferred a ++ b)) ≡ true
unfolding with_preferred
starts_with-preferred a b =
    elim (Bool-cases
      (ends_with (text "/") a || (ends_with (text "\\") a || bytes_eq a (drive a)))) [
        | inl e ↦
            rw (e, with_slashes-append a b) (starts_with-append (with_slashes a) (with_slashes b))
        | inr e ↦
            rw (e, append_assoc a (text "\\") b, with_slashes-append a (text "\\" ++ b))
              (starts_with-append (with_slashes a) (with_slashes (text "\\" ++ b)))
      ]

-- A path is valid exactly if it is not empty, has no "..", no "//", no backslash and no slash in
-- front, the base directory exists, and, where the path replaces the base directory, since it names
-- a drive and is absolute or the drive is another one than that of the base directory, its text
-- begins with the text of the base directory: any other path passes the prefix test.
pub is_valid_path_iff :
    (canonical : Bytes → Option Bytes) (path base_dir : Bytes)
    → is_valid_path canonical path base_dir ≡ (
        not (is_empty path)
        && (not (contains_path_traversal path) && elim (canonical base_dir) [
          | none ↦ false
          | some base ↦
              not (replaces base path) || starts_with (with_slashes base) (with_slashes path)
        ]))
unfolding is_valid_path contains_path_traversal append_path text
is_valid_path_iff canonical path base_dir = elim (Option-cases (canonical base_dir)) [
  | inl e ↦ simp e (ground arith)
  | inr (base, e) ↦
      simp e (ground (arith, starts_with-preferred base (drop (length (drive path)) path)))
]

erase_dots-same : (fuel : ℕ) (s : Bytes) → contains (text "..") s ≡ false → erase_dots fuel s ≡ s
unfolding erase_dots
erase_dots-same zero s h = refl
erase_dots-same (suc fuel) s h = ground (arith, h, Option-cases (find (text "..") s))

erase_backslashes-same : (s : Bytes) → contains (text "\\") s ≡ false → erase_backslashes s ≡ s
unfolding erase_backslashes text find starts_with
erase_backslashes-same [] h = refl
erase_backslashes-same (c ∷ s) h =
    ground (arith, h, Option-cases (find (b'\\' ∷ []) s), erase_backslashes-same s)

erase_slashes-same : (s : Bytes) → starts_with (text "/") s ≡ false → erase_slashes s ≡ s
unfolding erase_slashes starts_with text
erase_slashes-same [] h = refl
erase_slashes-same (c ∷ s) h = ground (arith, h)

-- Sanitizing leaves a valid path as it is, so that sanitizing twice is sanitizing once.
pub sanitize_path-valid :
    (canonical : Bytes → Option Bytes) (path base_dir : Bytes)
    → is_valid_path canonical path base_dir ≡ true
    → sanitize_path canonical path base_dir ≡ path
unfolding sanitize_path contains_path_traversal
sanitize_path-valid canonical path base_dir h =
    let v = is_valid_path_iff canonical path base_dir in
    rw
      (
        erase_dots-same (length path) path (ground (arith, h, v)),
        erase_backslashes-same path (ground (arith, h, v)),
        erase_slashes-same path (ground (arith, h, v)),
        h,
      )
      refl
