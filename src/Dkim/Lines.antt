-- ===== src/Dkim/Lines.antt =====
-- One round of the loop of antispam/dkim_canon.cpp that cuts the line ends of a body, and the
-- rounds
-- over blank lines.
use email_server_backend.Base.{
  ℕ, zero, suc, ◌+◌, ◌-◌, ◌<◌, ◌≡◌, ◌≢◌, ◌⊎◌, ◌∙◌, refl, sym, ap, false, [], ◌∷◌, ◌++◌,
  append_assoc, arith, Bytes, bytes_eq, substr, length, length-append, take-append, drop-append,
  All, ltb, ◌==◌, if◌then◌else◌, Option, some,
}
use email_server_backend.Dkim.Canon.{crlf, normalize, ends_line, trim_lines}

-- Line ends, one after the other.
abbrev pub blank_lines : ℕ → Bytes
blank_lines zero = []
blank_lines (suc n) = 13 ∷ 10 ∷ blank_lines n

-- How many line feeds a string has.
abbrev pub line_feeds : Bytes → ℕ
line_feeds [] = 0
line_feeds (c ∷ cs) = if c == 10 then suc (line_feeds cs) else line_feeds cs

pub normalize-append : (a b : Bytes) → normalize (a ++ b) ≡ normalize a ++ normalize b
unfolding normalize
normalize-append [] b = refl
normalize-append (c ∷ a) b = ground (arith, normalize-append a b)

pub normalize-byte : (c : ℕ) (s : Bytes) → c ≢ 10 → c ≢ 13 → normalize (c ∷ s) ≡ c ∷ normalize s
unfolding normalize
normalize-byte c s h k = ground arith

pub normalize-breaks :
    (s : Bytes) → All (λ c. (c ≡ 13) ⊎ (c ≡ 10)) s → normalize s ≡ blank_lines (line_feeds s)
unfolding normalize
normalize-breaks [] h = refl
normalize-breaks (c ∷ s) h = ground (arith, h.0, normalize-breaks s h.1)

pub blank_lines-snoc : (n : ℕ) → blank_lines (suc n) ≡ blank_lines n ++ crlf
blank_lines-snoc zero = refl
blank_lines-snoc (suc n) = ap (λ (s : Bytes). 13 ∷ 10 ∷ s) (blank_lines-snoc n)

-- The last two bytes of a string that is given with them.
pub last_two :
    (v : Bytes) (a b : ℕ) → substr (v ++ a ∷ b ∷ []) (length (v ++ a ∷ b ∷ []) - 2) 2 ≡ a ∷ b ∷ []
unfolding substr
last_two v a b =
    let n : length (v ++ a ∷ b ∷ []) - 2 ≡ length v = omega (arith, length-append v (a ∷ b ∷ [])) in
    rw (n, drop-append v (a ∷ b ∷ [])) refl

pub but_last_two :
    (v : Bytes) (a b : ℕ) → substr (v ++ a ∷ b ∷ []) 0 (length (v ++ a ∷ b ∷ []) - 2) ≡ v
unfolding substr
but_last_two v a b =
    let n : length (v ++ a ∷ b ∷ []) - 2 ≡ length v = omega (arith, length-append v (a ∷ b ∷ [])) in
    rw (n) (take-append v (a ∷ b ∷ []))

pub ends_line-append :
    (v : Bytes) (a b : ℕ) → ends_line (v ++ a ∷ b ∷ []) ≡ bytes_eq (a ∷ b ∷ []) crlf
unfolding ends_line
ends_line-append v a b =
    let long : ltb (length (v ++ a ∷ b ∷ [])) 2 ≡ false =
      ground (arith, length-append v (a ∷ b ∷ [])) in
    rw (long, last_two v a b) refl

-- One round of the loop at a string that ends in CRLF, behind two other bytes.
pub trim_lines-crlf :
    (fuel : ℕ) (x : Bytes) (a b : ℕ)
    → let v = x ++ a ∷ b ∷ [] in
      trim_lines (suc fuel) (v ++ crlf)
      ≡ (if bytes_eq (a ∷ b ∷ []) crlf then trim_lines fuel v else some (v ++ crlf))
unfolding trim_lines
trim_lines-crlf fuel x a b =
    let v = x ++ a ∷ b ∷ [] in
    let n : length (v ++ crlf) - 2 ≡ length x + 2 =
      omega (arith, length-append v crlf, length-append x (a ∷ b ∷ [])) in
    let m : length (v ++ crlf) - 2 - 2 ≡ length x = omega (arith, n) in
    let before : substr (v ++ crlf) (length (v ++ crlf) - 2 - 2) 2 ≡ a ∷ b ∷ [] =
      rw (m, append_assoc x (a ∷ b ∷ []) crlf)
        (unfold substr in rw (drop-append x (a ∷ b ∷ crlf)) refl) in
    rw (ends_line-append v 13 10, before, but_last_two v 13 10) (ground (arith, n))

-- Further line ends are erased, whatever the last round does.
pub trim_lines-blank_lines :
    (u : Bytes) (r : Option Bytes) (n fuel : ℕ)
    → ((f : ℕ) → trim_lines (suc f) (u ++ crlf) ≡ r)
    → n < fuel
    → trim_lines fuel (u ++ blank_lines (suc n)) ≡ r
unfolding bytes_eq
trim_lines-blank_lines u r n zero last h = absurd (omega arith)
trim_lines-blank_lines u r zero (suc fuel) last h = last fuel
trim_lines-blank_lines u r (suc n) (suc fuel) last h =
    let v = u ++ blank_lines n in
    let whole : u ++ blank_lines (suc (suc n)) ≡ (v ++ crlf) ++ crlf =
      ap (λ (s : Bytes). u ++ s) (blank_lines-snoc (suc n))
      ∙ (ap (λ (s : Bytes). u ++ (s ++ crlf)) (blank_lines-snoc n) ∙ simp append_assoc) in
    let next : v ++ crlf ≡ u ++ blank_lines (suc n) =
      append_assoc u (blank_lines n) crlf ∙ ap (λ (s : Bytes). u ++ s) (sym (blank_lines-snoc n)) in
    rw (whole, trim_lines-crlf fuel v 13 10)
      (rw next (trim_lines-blank_lines u r n fuel last (omega arith)))
