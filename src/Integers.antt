-- ===== src/Integers.antt =====
-- `int` and `std::stoi`, as antispam/spf_parser.cpp and antispam/dmarc_evaluator.cpp use them.
use email_server_backend.Base.{
  ℕ, zero, suc, ◌+◌, ◌-◌, ◌*◌, ◌^◌, Bool, true, false, ◌&&◌, [], ◌∷◌, Bytes, is_space, leb, ltb,
  ◌==◌, ◌≡◌, arith, if◌then◌else◌, Option, none, some,
}

pub data ℤ : Type 0 where
  pos negsuc : ℕ → ℤ

-- The number that the digits at the start of the string make, and how many there are.
unfoldable pub read_digits : Bytes → ℕ → ℕ × ℕ
read_digits [] n = (n, 0)
read_digits (c ∷ cs) n =
    let rest = read_digits cs (10 * n + (c - b'0')) in
    if leb b'0' c && leb c b'9' then (rest.0, suc rest.1) else (n, 0)

unfoldable pub skip_spaces : Bytes → Bytes
skip_spaces [] = []
skip_spaces (c ∷ cs) = let rest = skip_spaces cs in if is_space c then rest else c ∷ cs

unfoldable pub negate : ℕ → ℤ
negate zero = pos 0
negate (suc n) = negsuc n

unfoldable pub stoi_unsigned : Bool → Bytes → Option ℤ
stoi_unsigned negative s =
    let r = read_digits s 0 in
    if r.1 == 0
    then none
    else if negative
    then if leb r.0 (2 ^ 31) then some (negate r.0) else none
    else if ltb r.0 (2 ^ 31)
    then some (pos r.0)
    else none

-- `none` is std::invalid_argument or std::out_of_range.
unfoldable pub stoi : Bytes → Option ℤ
stoi s = elim (skip_spaces s) [
  | [] ↦ none
  | c ∷ cs ↦
      if c == b'-'
      then stoi_unsigned true cs
      else if c == b'+'
      then stoi_unsigned false cs
      else stoi_unsigned false (c ∷ cs)
]

-- The sum, the difference and the order, by the two sides of zero.
abbrev pub pos_part : ℤ → ℕ
pos_part (pos n) = n
pos_part (negsuc n) = 0

abbrev pub neg_part : ℤ → ℕ
neg_part (pos n) = 0
neg_part (negsuc n) = suc n

abbrev pub sub_ℕ : ℕ → ℕ → ℤ
sub_ℕ a b = if leb b a then pos (a - b) else negsuc (b - a - 1)

infixl 65 ◌+ℤ◌
unfoldable pub ◌+ℤ◌ : ℤ → ℤ → ℤ
a +ℤ b = sub_ℕ (pos_part a + pos_part b) (neg_part a + neg_part b)

-- `a <= b`, as a test.
unfoldable pub lebℤ : ℤ → ℤ → Bool
lebℤ a b = leb (pos_part a + neg_part b) (pos_part b + neg_part a)

pub +ℤ_parts :
    (a b : ℤ)
    → pos_part (a +ℤ b) + neg_part a + neg_part b ≡ neg_part (a +ℤ b) + pos_part a + pos_part b
unfolding ◌+ℤ◌
+ℤ_parts a b = ground arith

pub eq_of_parts : (a b : ℤ) → pos_part a + neg_part b ≡ pos_part b + neg_part a → a ≡ b
eq_of_parts a b h = ground arith

pub ruleset int_laws = (arith, +ℤ_parts, eq_of_parts)

pub +ℤ_assoc : (a b c : ℤ) → a +ℤ b +ℤ c ≡ a +ℤ (b +ℤ c)
+ℤ_assoc a b c = omega int_laws
