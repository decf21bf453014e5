-- ===== src/Validation/Names.antt =====
-- Names of users that pass `isValidUsername` of core/input_validator.cpp.
use email_server_backend.Base.{
  ℕ, zero, suc, ◌≡◌, ◌≢◌, ◌≤◌, refl, true, not, [], ◌∷◌, arith, Bytes, is_empty, length, take, All,
  ltb, Bool-cases, inl, inr,
}
use email_server_backend.Validation.InputValidator.{
  is_alnum, is_name_char, all_name_chars, is_valid_username, keep_name_chars, sanitize_username,
}
use email_server_backend.Storage.Names.{IsName}

all_name_chars-no_slash : (s : Bytes) → all_name_chars s ≡ true → All (λ c. c ≢ b'/') s
unfolding all_name_chars is_name_char is_alnum
all_name_chars-no_slash [] h = tt
all_name_chars-no_slash (c ∷ s) h = (ground arith, all_name_chars-no_slash s (ground (arith, h)))

all_name_chars-keep_name_chars : (s : Bytes) → all_name_chars (keep_name_chars s) ≡ true
unfolding all_name_chars keep_name_chars
all_name_chars-keep_name_chars [] = refl
all_name_chars-keep_name_chars (c ∷ s) = ground (arith, all_name_chars-keep_name_chars s)

all_name_chars-take :
    (n : ℕ) (s : Bytes) → all_name_chars s ≡ true → all_name_chars (take n s) ≡ true
unfolding all_name_chars
all_name_chars-take zero s h = refl
all_name_chars-take (suc n) [] h = refl
all_name_chars-take (suc n) (c ∷ s) h = ground (arith, all_name_chars-take n s)

keep_name_chars-same : (s : Bytes) → all_name_chars s ≡ true → keep_name_chars s ≡ s
unfolding all_name_chars keep_name_chars
keep_name_chars-same [] h = refl
keep_name_chars-same (c ∷ s) h = ground (arith, keep_name_chars-same s)

length-take : (n : ℕ) (s : Bytes) → length (take n s) ≤ n
length-take zero s = omega arith
length-take (suc n) [] = omega arith
length-take (suc n) (c ∷ s) = omega (arith, length-take n s)

valid_iff :
    (s : Bytes) → all_name_chars s ≡ true → length s ≤ 64 → is_valid_username s ≡ not (is_empty s)
unfolding is_valid_username
valid_iff s h n = ground (arith, h, n)

sanitized_lem :
    (s : Bytes) → is_valid_username (sanitize_username s) ≡ not (is_empty (sanitize_username s))
unfolding sanitize_username
sanitized_lem s =
    let kept = keep_name_chars s in
    let clean = all_name_chars-keep_name_chars s in
    elim (Bool-cases (ltb 64 (length kept))) [
      | inl e ↦
          rw e (valid_iff (take 64 kept) (all_name_chars-take 64 kept clean) (length-take 64 kept))
      | inr e ↦ rw e (valid_iff kept clean (ground (arith, e)))
    ]

unchanged_lem : (s : Bytes) → is_valid_username s ≡ true → sanitize_username s ≡ s
unfolding is_valid_username sanitize_username
unchanged_lem s h = rw (keep_name_chars-same s (ground (arith, h))) (ground (arith, h))

-- `sanitizeUsername` and `isValidUsername` agree: a sanitized name is valid unless nothing is left
-- of it, and the names that sanitizing leaves as they are, the empty one aside, are the valid
-- ones.
pub sanitize_username-valid :
    (s : Bytes)
    → (is_valid_username (sanitize_username s) ≡ not (is_empty (sanitize_username s)))
      × (is_valid_username s ≡ true → sanitize_username s ≡ s)
sanitize_username-valid s = (sanitized_lem s, unchanged_lem s)

-- The mail store gives a user with a valid name a directory of its own: the name is one component
-- of a path.
pub is_valid_username-IsName : (s : Bytes) → is_valid_username s ≡ true → IsName s
unfolding is_valid_username
is_valid_username-IsName s h = (ground (arith, h), all_name_chars-no_slash s (ground (arith, h)))
