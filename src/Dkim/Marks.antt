-- ===== src/Dkim/Marks.antt =====
-- Where the search of antispam/dkim_verifier.cpp for a tag ends in the header that
-- antispam/dkim_signer.cpp writes.
use email_server_backend.Base.{
  ℕ, ◌+◌, ◌≡◌, ◌≢◌, ◌∙◌, refl, sym, ap, false, [], ◌∷◌, ◌++◌, append_assoc, arith, Bytes, text,
  substr, drop, find, starts_with, find-byte, find-no_byte, find-here, length, length-append,
  take-append, drop-append, All, some,
}
use email_server_backend.Dkim.Verifier.{get_tag, field_from}

-- The search for "k=".
abbrev pub mark : ℕ → Bytes
mark k = k ∷ b'=' ∷ []

abbrev pub Plain : Bytes → Type 0
Plain = All (λ c. c ≢ b'=')

-- The first "k=" stands behind this part of a string.
abbrev pub First : ℕ → Bytes → Bytes → Type 0
First k pre t = find (mark k) (pre ++ t) ≡ some (length pre)

pub First-here : (k : ℕ) (t : Bytes) → First k [] (mark k ++ t)
First-here k t = find-here (mark k) t

-- It is not in a part with no '=', where no '=' follows.
pub starts_with-other : (c : ℕ) (y : Bytes) → c ≢ b'=' → starts_with (b'=' ∷ []) (c ∷ y) ≡ false
unfolding starts_with
starts_with-other c y n = ground arith

pub First-past :
    (k : ℕ) (x pre t : Bytes) (c : ℕ) (y : Bytes)
    → pre ++ t ≡ c ∷ y
    → c ≢ b'='
    → Plain x
    → First k pre t
    → First k (x ++ pre) t
unfolding find starts_with
First-past k [] pre t c y e n h f = f
First-past k (a ∷ []) pre t c y e n h f =
    let apart : starts_with (b'=' ∷ []) (pre ++ t) ≡ false =
      ap (starts_with (b'=' ∷ [])) e ∙ starts_with-other c y n in
    ground (arith, apart, f)
First-past k (a ∷ b ∷ x) pre t c y e n h f =
    ground (arith, h, First-past k (b ∷ x) pre t c y e n h.1 f)

-- Nor at the mark of another tag.
pub First-other :
    (k n : ℕ) (pre t : Bytes) → n ≢ k → k ≢ b'=' → First k pre t → First k (n ∷ b'=' ∷ pre) t
unfolding find starts_with
First-other k n pre t h e f = ground (arith, f)

pub drop-behind : (pre t : Bytes) (a b : ℕ) → drop (length pre + 2) (pre ++ a ∷ b ∷ t) ≡ t
drop-behind pre t a b =
    let n : length pre + 2 ≡ length (pre ++ a ∷ b ∷ []) =
      omega (arith, length-append pre (a ∷ b ∷ [])) in
    rw (n, sym (append_assoc pre (a ∷ b ∷ []) t)) (drop-append (pre ++ a ∷ b ∷ []) t)

pub field_from-byte :
    (c : ℕ) (v rest : Bytes) → All (λ d. d ≢ c) v → field_from (c ∷ []) (v ++ c ∷ rest) ≡ v
unfolding field_from substr
field_from-byte c v rest h = rw (find-byte c v rest h, field_from) (take-append v (c ∷ rest))

pub field_from-end : (c : ℕ) (v : Bytes) → All (λ d. d ≢ c) v → field_from (c ∷ []) v ≡ v
unfolding field_from
field_from-end c v h = rw (find-no_byte c v h, field_from) refl

-- What `getTag` reads behind the first mark.
pub get_tag-First :
    (k : ℕ) (pre rest : Bytes)
    → First k pre (mark k ++ rest)
    → get_tag (pre ++ (mark k ++ rest)) (k ∷ []) ≡ field_from (b';' ∷ []) rest
unfolding get_tag
get_tag-First k pre rest f =
    rw (f, get_tag) (ap (field_from (b';' ∷ [])) (drop-behind pre rest k b'='))

-- A value of a tag: neither '=' nor ';' stands in it.
abbrev pub IsValue : Bytes → Type 0
IsValue v = All (λ c. c ≢ b'=') v × All (λ c. c ≢ b';') v

abbrev pub sep : Bytes
sep = b';' ∷ b' ' ∷ []

unfoldable pub start : Bytes
unfolding text
start = text "DKIM-Signature: v=1; a=rsa-sha256; c=relaxed/relaxed; "

-- The tag before, with its value.
pub First-tag :
    (k n : ℕ) (v pre t : Bytes) (c : ℕ) (y : Bytes)
    → pre ++ t ≡ c ∷ y
    → c ≢ b'='
    → n ≢ k
    → k ≢ b'='
    → IsValue v
    → First k pre t
    → First k (mark n ++ (v ++ (sep ++ pre))) t
First-tag k n v pre t c y e h d m i f = First-other k n (v ++ (sep ++ pre)) t d m (
    First-past k v (sep ++ pre) t b';' (b' ' ∷ (pre ++ t)) refl (ground arith) i.0
      (First-past k sep pre t c y e h (ground arith) f))

-- The beginning of the header has no mark of a tag that is read.
pub First-start :
    (k : ℕ) (pre t : Bytes) (c : ℕ) (y : Bytes)
    → pre ++ t ≡ c ∷ y
    → c ≢ b'='
    → k ≢ b'='
    → b'v' ≢ k
    → b'a' ≢ k
    → b'c' ≢ k
    → First k pre t
    → First k (start ++ pre) t
unfolding start text
First-start k pre t c y e h m v a d f =
    let third = b'=' ∷ (text "relaxed/relaxed; " ++ pre) in
    let second = b'=' ∷ (text "rsa-sha256; " ++ b'c' ∷ third) in
    let first = b'=' ∷ (text "1; " ++ b'a' ∷ second) in
    First-past k (text "DKIM-Signature: ") (b'v' ∷ first) t b'v' (first ++ t) refl (ground arith)
      (ground arith)
      (First-other k b'v' (text "1; " ++ b'a' ∷ second) t v m (
        First-past k (text "1; ") (b'a' ∷ second) t b'a' (second ++ t) refl (ground arith)
          (ground arith)
          (First-other k b'a' (text "rsa-sha256; " ++ b'c' ∷ third) t a m (
            First-past k (text "rsa-sha256; ") (b'c' ∷ third) t b'c' (third ++ t) refl
              (ground arith) (ground arith)
              (First-other k b'c' (text "relaxed/relaxed; " ++ pre) t d m
                (First-past k (text "relaxed/relaxed; ") pre t c y e h (ground arith) f))))))
