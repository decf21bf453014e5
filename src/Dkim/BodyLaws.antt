-- ===== src/Dkim/BodyLaws.antt =====
-- `canonicalizeBodyRelaxed` of antispam/dkim_canon.cpp against the lines of the body.
use email_server_backend.Base.{
  ℕ, zero, suc, ◌+◌, ◌<◌, ◌≡◌, ◌≢◌, ◌⊎◌, ◌∙◌, refl, sym, ap, false, [], ◌∷◌, ◌++◌, append_assoc,
  append-nil, arith, Bytes, bytes_eq, is_empty, length, length-append, All, ◌==◌, if◌then◌else◌,
  Option, none, some, inl, inr, Bool-cases,
}
use email_server_backend.Dkim.Canon.{
  crlf, normalize, ends_line, trim_lines, end_with_line, canonicalize_body,
}
use email_server_backend.Dkim.Lines.{
  blank_lines, line_feeds, normalize-append, normalize-byte, normalize-breaks, ends_line-append,
  trim_lines-crlf, trim_lines-blank_lines,
}

-- A string is empty or has a last byte.
last_byte : (s : Bytes) → (s ≡ []) ⊎ ((x : Bytes) × ((a : ℕ) × (s ≡ x ++ a ∷ [])))
last_byte [] = inl refl
last_byte (c ∷ s) = elim (last_byte s) [
  | inl e ↦ inr ([], (c, ap (λ (t : Bytes). c ∷ t) e))
  | inr e ↦ inr (c ∷ e.0, (e.1.0, ap (λ (t : Bytes). c ∷ t) e.1.1))
]

-- Strings that the loop leaves as they are.
trim_lines-kept : (fuel : ℕ) (b : Bytes) → ends_line b ≡ false → trim_lines fuel b ≡ some b
unfolding trim_lines
trim_lines-kept zero b h = refl
trim_lines-kept (suc fuel) b h = rw h refl

ends_line-byte : (w : Bytes) (c : ℕ) → c ≢ 10 → ends_line (w ++ c ∷ []) ≡ false
unfolding ends_line bytes_eq
ends_line-byte w c h = elim (last_byte w) [
  | inl e ↦ rw e refl
  | inr (x, (a, e)) ↦
      rw (e, append_assoc x (a ∷ []) (c ∷ []), ends_line-append x a c) (ground arith)
]

-- What the second loop makes of a string with a last byte and one line end.
cut : Bytes → ℕ → Option Bytes
cut w c = if is_empty w then none else some (w ++ c ∷ crlf)

is_empty-last_byte : (x : Bytes) (a : ℕ) → is_empty (x ++ a ∷ []) ≡ false
unfolding is_empty
is_empty-last_byte [] a = refl
is_empty-last_byte (c ∷ x) a = refl

not_crlf : (a c : ℕ) → c ≢ 10 → bytes_eq (a ∷ c ∷ []) crlf ≡ false
unfolding bytes_eq
not_crlf a c h = ground arith

trim_lines-cut :
    (w : Bytes) (c : ℕ)
    → c ≢ 10
    → (fuel : ℕ) → trim_lines (suc fuel) ((w ++ c ∷ []) ++ crlf) ≡ cut w c
unfolding cut is_empty
trim_lines-cut w c h fuel = elim (last_byte w) [
  | inl e ↦ rw e (unfold trim_lines in refl)
  | inr (x, (a, e)) ↦
      rw
        (
          e,
          append_assoc x (a ∷ []) (c ∷ []),
          trim_lines-crlf fuel x a c,
          not_crlf a c h,
          is_empty-last_byte x a,
        )
        (ap some (append_assoc x (a ∷ c ∷ []) crlf ∙ sym (append_assoc x (a ∷ []) (c ∷ crlf))))
]

length-blank_lines : (n : ℕ) → length (blank_lines n) ≡ n + n
length-blank_lines zero = refl
length-blank_lines (suc n) = omega (arith, length-blank_lines n)

-- The whole of the second loop, and the last test.
finish : Bytes → Option Bytes
finish b = elim (trim_lines (length b) b) [ none ↦ none | some t ↦ some (end_with_line t) ]

end_with_line-crlf : (b : Bytes) → end_with_line (b ++ crlf) ≡ b ++ crlf
unfolding end_with_line bytes_eq
end_with_line-crlf b = rw (ends_line-append b 13 10) refl

end_with_line-byte : (w : Bytes) (c : ℕ) → c ≢ 10 → end_with_line (w ++ c ∷ []) ≡ w ++ c ∷ crlf
unfolding end_with_line
end_with_line-byte w c h = rw (ends_line-byte w c h) (append_assoc w (c ∷ []) crlf)

finish-cut :
    (w : Bytes) (c : ℕ)
    → elim (cut w c) as (λ r. Option Bytes) [ none ↦ none | some t ↦ some (end_with_line t) ]
      ≡ cut w c
unfolding cut
finish-cut w c = elim (Bool-cases (is_empty w)) [
  | inl e ↦ rw e refl
  | inr e ↦ rw e (
      ap some (
        ap end_with_line (sym (append_assoc w (c ∷ []) crlf))
        ∙ (end_with_line-crlf (w ++ c ∷ []) ∙ append_assoc w (c ∷ []) crlf)))
]

finish-text :
    (w : Bytes) (c n : ℕ)
    → c ≢ 10
    → finish ((w ++ c ∷ []) ++ blank_lines n) ≡ (if n == 0 then some (w ++ c ∷ crlf) else cut w c)
unfolding finish
finish-text w c zero h =
    rw
      (
        append-nil (w ++ c ∷ []),
        trim_lines-kept (length (w ++ c ∷ [])) (w ++ c ∷ []) (ends_line-byte w c h),
        finish,
      )
      (ap some (end_with_line-byte w c h))
finish-text w c (suc n) h =
    let later : (suc n == 0) ≡ false = ground arith in
    let b = (w ++ c ∷ []) ++ blank_lines (suc n) in
    let enough : n < length b =
      omega (arith, length-append (w ++ c ∷ []) (blank_lines (suc n)), length-blank_lines n) in
    rw
      (
        trim_lines-blank_lines (w ++ c ∷ []) (cut w c) n (length b) (trim_lines-cut w c h) enough,
        later,
        finish,
      )
      (finish-cut w c)

finish-blank_lines : (n : ℕ) → finish (blank_lines n) ≡ some crlf
unfolding finish
finish-blank_lines zero = unfold trim_lines end_with_line in refl
finish-blank_lines (suc n) =
    let enough : n < length (blank_lines (suc n)) = omega (arith, length-blank_lines n) in
    rw
      (
        trim_lines-blank_lines [] (some crlf) n (length (blank_lines (suc n)))
            (λ f. unfold trim_lines in refl) enough,
        finish,
      )
      (ap some (end_with_line-crlf []))

-- The canonical form of a body that consists of line breaks is one line end. That of any other body
-- is the body with each line feed written as CRLF and no other carriage return, and with exactly
-- one line end behind its last byte that is no line break, whatever line breaks follow this byte;
-- but where this byte is the first one that is no carriage return and a line feed follows, the code
-- throws.
pub canonicalize_body_lem :
    (w ending : Bytes) (c : ℕ)
    → c ≢ 10
    → c ≢ 13
    → All (λ d. (d ≡ 13) ⊎ (d ≡ 10)) ending
    → (canonicalize_body ending ≡ some crlf)
      × (canonicalize_body (w ++ c ∷ ending) ≡ (
          if line_feeds ending == 0
          then some (normalize w ++ c ∷ crlf)
          else if is_empty (normalize w)
          then none
          else some (normalize w ++ c ∷ crlf)))
unfolding canonicalize_body finish cut
canonicalize_body_lem w ending c h k e =
    let n = line_feeds ending in
    let whole : normalize (w ++ c ∷ ending) ≡ (normalize w ++ c ∷ []) ++ blank_lines n =
      normalize-append w (c ∷ ending)
      ∙ (ap (λ (s : Bytes). normalize w ++ s) (normalize-byte c ending h k)
          ∙ (ap (λ (s : Bytes). normalize w ++ c ∷ s) (normalize-breaks ending e)
              ∙ sym (append_assoc (normalize w) (c ∷ []) (blank_lines n)))) in
    (
      rw (normalize-breaks ending e, canonicalize_body) (finish-blank_lines n),
      rw (whole, canonicalize_body) (finish-text (normalize w) c n h),
    )
