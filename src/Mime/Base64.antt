-- ===== src/Mime/Base64.antt =====
-- Base64 text is decoded by mime/mime_decoder.cpp to what was encoded.
use email_server_backend.Base.{
  ℕ, zero, suc, ◌+◌, ◌-◌, ◌*◌, ◌/◌, ◌%◌, ◌^◌, ◌<◌, ◌≡◌, ◌∙◌, refl, ap, Bool, true, false, ◌&&◌, [],
  ◌∷◌, ◌++◌, arith, Bytes, text, find, starts_with, All, All-append, leb, ltb, ◌==◌, ==_iff,
  if◌then◌else◌,
}
use email_server_backend.Validation.InputValidator.{is_alnum}
use email_server_backend.Mime.Decoder.{is_base64, table_find, decode_base64}

-- The encoder of RFC 4648, with or without "=" at the end.
abbrev pub digit : ℕ → ℕ
digit s =
    if ltb s 26
    then b'A' + s
    else if ltb s 52
    then b'a' + (s - 26)
    else if ltb s 62
    then b'0' + (s - 52)
    else if s == 62
    then b'+'
    else b'/'

abbrev pub encode_base64 : Bytes → Bytes → Bytes
encode_base64 pad [] = []
encode_base64 pad (a ∷ []) = digit (a / 4) ∷ digit (a % 4 * 16) ∷ (pad ++ pad)
encode_base64 pad (a ∷ b ∷ []) =
    digit (a / 4) ∷ digit (a % 4 * 16 + b / 16) ∷ digit (b % 16 * 4) ∷ pad
encode_base64 pad (a ∷ b ∷ c ∷ s) =
    digit (a / 4)
    ∷ digit (a % 4 * 16 + b / 16)
    ∷ digit (b % 16 * 4 + c / 64)
    ∷ digit (c % 64)
    ∷ encode_base64 pad s

-- Each of the 64 digits is read back.
abbrev reads_back : ℕ → Bool
reads_back s = is_base64 (digit s) && table_find (digit s) == s

abbrev all_below : ℕ → Bool
all_below zero = true
all_below (suc n) = reads_back n && all_below n

all_digits : all_below 64 ≡ true
unfolding is_base64 is_alnum table_find text find starts_with
all_digits = refl

reads_back-below : (n s : ℕ) → all_below n ≡ true → s < n → reads_back s ≡ true
reads_back-below zero s h less = ground (arith, less)
reads_back-below (suc n) s h less = ground (arith, h, less, reads_back-below n s)

digit_lem : (s : ℕ) → s < 64 → (is_base64 (digit s) ≡ true) × (table_find (digit s) ≡ s)
digit_lem s less =
    let r = reads_back-below 64 s all_digits less in
    (ground (arith, r), (==_iff (table_find (digit s)) s).0 (ground (arith, r)))

-- One step of the decoder.
decode_base64-digit :
    (val bits s : ℕ) (cs : Bytes)
    → s < 64
    → decode_base64 val bits (digit s ∷ cs) ≡ (
        let val' = (val * 64 + s) % 2 ^ 32 in
        if leb 8 (bits + 6)
        then val' / 2 ^ (bits + 6 - 8) % 256 ∷ decode_base64 val' (bits + 6 - 8) cs
        else decode_base64 val' (bits + 6) cs)
unfolding decode_base64
decode_base64-digit val bits s cs less = let d = digit_lem s less in rw (d.0, d.1) refl

abbrev shift : ℕ → ℕ → ℕ
shift val s = (val * 64 + s) % 2 ^ 32

decode_base64-two :
    (val s t : ℕ) (cs : Bytes)
    → s < 64
    → t < 64
    → decode_base64 val 0 (digit s ∷ digit t ∷ cs)
      ≡ (let val' = shift (shift val s) t in val' / 2 ^ 4 % 256 ∷ decode_base64 val' 4 cs)
decode_base64-two val s t cs hs ht =
    decode_base64-digit val 0 s (digit t ∷ cs) hs ∙ decode_base64-digit (shift val s) 6 t cs ht

decode_base64-quad :
    (val s t u v : ℕ) (cs : Bytes)
    → s < 64
    → t < 64
    → u < 64
    → v < 64
    → decode_base64 val 0 (digit s ∷ digit t ∷ digit u ∷ digit v ∷ cs) ≡ (
        let two = shift (shift val s) t in
        let three = shift two u in
        let four = shift three v in
        two / 2 ^ 4 % 256 ∷ three / 2 ^ 2 % 256 ∷ four / 2 ^ 0 % 256 ∷ decode_base64 four 0 cs)
decode_base64-quad val s t u v cs hs ht hu hv =
    decode_base64-two val s t (digit u ∷ digit v ∷ cs) hs ht
    ∙ ap (λ x. shift (shift val s) t / 2 ^ 4 % 256 ∷ x)
        (decode_base64-digit (shift (shift val s) t) 4 u (digit v ∷ cs) hu
          ∙ ap (λ x. shift (shift (shift val s) t) u / 2 ^ 2 % 256 ∷ x)
              (decode_base64-digit (shift (shift (shift val s) t) u) 2 v cs hv))

-- What is left of older bits does not reach the byte that is written.
byte_one : (val s t : ℕ) → s < 64 → t < 64 → shift (shift val s) t / 2 ^ 4 % 256 ≡ s * 4 + t / 16
byte_one val s t hs ht = omega arith

byte_two : (two u : ℕ) → u < 64 → shift two u / 2 ^ 2 % 256 ≡ two % 16 * 16 + u / 4
byte_two two u h = omega arith

byte_three : (three v : ℕ) → v < 64 → shift three v / 2 ^ 0 % 256 ≡ three % 4 * 64 + v
byte_three three v h = omega arith

low_bits : (val s : ℕ) → s < 64 → shift val s % 64 ≡ s
low_bits val s h = omega arith

byte_a :
    (val a b : ℕ)
    → a < 256
    → b < 256
    → shift (shift val (a / 4)) (a % 4 * 16 + b / 16) / 2 ^ 4 % 256 ≡ a
byte_a val a b ha hb =
    omega (arith, byte_one val (a / 4) (a % 4 * 16 + b / 16) (omega arith) (omega arith))

byte_b :
    (val a b c : ℕ)
    → b < 256
    → c < 256
    → shift (shift val (a % 4 * 16 + b / 16)) (b % 16 * 4 + c / 64) / 2 ^ 2 % 256 ≡ b
byte_b val a b c hb hc = omega (
  arith,
  byte_two (shift val (a % 4 * 16 + b / 16)) (b % 16 * 4 + c / 64) (omega arith),
  low_bits val (a % 4 * 16 + b / 16) (omega arith),
)

byte_c :
    (val b c : ℕ) → c < 256 → shift (shift val (b % 16 * 4 + c / 64)) (c % 64) / 2 ^ 0 % 256 ≡ c
byte_c val b c hc = omega (
  arith,
  byte_three (shift val (b % 16 * 4 + c / 64)) (c % 64) (omega arith),
  low_bits val (b % 16 * 4 + c / 64) (omega arith),
)

decode_base64-pad :
    (val bits : ℕ) (pad : Bytes)
    → All (λ c. is_base64 c ≡ false) pad
    → decode_base64 val bits pad ≡ []
unfolding decode_base64
decode_base64-pad val bits [] h = refl
decode_base64-pad val bits (c ∷ pad) (h, hs) =
    rw (h, decode_base64) (decode_base64-pad val bits pad hs)

-- Base64 text is decoded to the bytes that were encoded, whether or not it is padded, in any state
-- that has no bits left to write: the `int` that wraps around loses no bit that is still needed.
pub decode_base64-encode_base64 :
    (val : ℕ) (pad s : Bytes)
    → All (λ c. is_base64 c ≡ false) pad
    → All (λ c. c < 256) s
    → decode_base64 val 0 (encode_base64 pad s) ≡ s
decode_base64-encode_base64 val pad [] p h = decode_base64-pad val 0 [] tt
decode_base64-encode_base64 val pad (a ∷ []) p (ha, _) =
    let one = shift (shift val (a / 4)) (a % 4 * 16) in
    let first : one / 2 ^ 4 % 256 ≡ a =
      omega (arith, byte_one val (a / 4) (a % 4 * 16) (omega arith) (omega arith)) in
    decode_base64-two val (a / 4) (a % 4 * 16) (pad ++ pad) (omega arith) (omega arith)
    ∙ rw
        (
          first,
          decode_base64-pad one 4 (pad ++ pad) (All-append (λ c. is_base64 c ≡ false) pad pad p p),
        )
        refl
decode_base64-encode_base64 val pad (a ∷ b ∷ []) p (ha, (hb, _)) =
    let one = shift (shift val (a / 4)) (a % 4 * 16 + b / 16) in
    let two = shift one (b % 16 * 4) in
    let second : two / 2 ^ 2 % 256 ≡ b = omega (
      arith,
      byte_two one (b % 16 * 4) (omega arith),
      low_bits (shift val (a / 4)) (a % 4 * 16 + b / 16) (omega arith),
    ) in
    decode_base64-two val (a / 4) (a % 4 * 16 + b / 16) (digit (b % 16 * 4) ∷ pad) (omega arith)
      (omega arith)
    ∙ rw
        (
          byte_a val a b ha hb,
          decode_base64-digit one 4 (b % 16 * 4) pad (omega arith),
          second,
          decode_base64-pad two 2 pad p,
        )
        refl
decode_base64-encode_base64 val pad (a ∷ b ∷ c ∷ s) p (ha, (hb, (hc, hs))) =
    let two = shift (shift val (a / 4)) (a % 4 * 16 + b / 16) in
    let three = shift two (b % 16 * 4 + c / 64) in
    decode_base64-quad val (a / 4) (a % 4 * 16 + b / 16) (b % 16 * 4 + c / 64) (c % 64)
      (encode_base64 pad s) (omega arith) (omega arith) (omega arith) (omega arith)
    ∙ rw
        (
          byte_a val a b ha hb,
          byte_b (shift val (a / 4)) a b c hb hc,
          byte_c two b c hc,
          decode_base64-encode_base64 (shift three (c % 64)) pad s p hs,
        )
        refl
