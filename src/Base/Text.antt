-- ===== src/Base/Text.antt =====
-- `std::string` as a list of byte values, with the members and `<cctype>` functions that the
-- program calls, for the "C" locale. `text` gives the bytes of an ASCII literal.
use Prim.Native.Nat.{ℕ, suc, ◌+◌, ◌-◌}
use Prim.Native.Char.{code}
use Prim.Native.String.{String}
use mathlib.Core.Path.{◌≡◌, refl}
use mathlib.Core.Logic.{◌↔◌, ◌≢◌}
use mathlib.Core.Bool.{Bool, true, false, ◌&&◌, ◌||◌}
use mathlib.Core.Option.{Option, none, some}
use mathlib.Core.List.{List, [], ◌∷◌, map}
use native.Mathlib.Omega.{arith}
use mathlib.Core.Option
use email_server_backend.Base.Lists.{take, drop}
use email_server_backend.Base.Tests.{leb, ◌==◌, if◌then◌else◌}

abbrev pub Bytes : Type 0
Bytes = List ℕ

unfoldable pub text : String → Bytes
text String.[] = []
text (String.◌∷◌ c s) = code c ∷ text s

unfoldable pub bytes_eq : Bytes → Bytes → Bool
bytes_eq [] [] = true
bytes_eq (a ∷ as') (b ∷ bs) = a == b && bytes_eq as' bs
bytes_eq _ _ = false

pub bytes_eq_iff : (a b : Bytes) → (bytes_eq a b ≡ true) ↔ (a ≡ b)
unfolding bytes_eq
bytes_eq_iff (x ∷ a) (y ∷ b) = ground (arith, bytes_eq_iff a b)
bytes_eq_iff _ _ = ground arith

pub bytes_eq_refl : (a : Bytes) → bytes_eq a a ≡ true
bytes_eq_refl a = (bytes_eq_iff a a).1 refl

unfoldable pub is_empty : Bytes → Bool
is_empty [] = true
is_empty (_ ∷ _) = false

unfoldable pub to_upper : ℕ → ℕ
to_upper c = if leb b'a' c && leb c b'z' then c - 32 else c

unfoldable pub to_lower : ℕ → ℕ
to_lower c = if leb b'A' c && leb c b'Z' then c + 32 else c

-- `isspace`: space, \t, \n, \v, \f, \r.
unfoldable pub is_space : ℕ → Bool
is_space c = c == 32 || (leb 9 c && leb c 13)

unfoldable pub upper : Bytes → Bytes
unfolding to_upper
upper = map to_upper

unfoldable pub lower : Bytes → Bytes
unfolding to_lower
lower = map to_lower

-- Whether the second string begins with the first.
unfoldable pub starts_with : Bytes → Bytes → Bool
starts_with [] s = true
starts_with (p ∷ ps) [] = false
starts_with (p ∷ ps) (c ∷ cs) = p == c && starts_with ps cs

-- `s.find(p)`; `none` is `npos`.
unfoldable pub find : Bytes → Bytes → Option ℕ
unfolding starts_with
find p [] = if starts_with p [] then some 0 else none
find p (c ∷ cs) = if starts_with p (c ∷ cs) then some 0 else Option.map suc (find p cs)

-- `s.find(p, k)` for a position `k` inside `s`.
unfoldable pub find_from : Bytes → Bytes → ℕ → Option ℕ
unfolding find
find_from p s k = Option.map (λ i. k + i) (find p (drop k s))

-- `s.substr(k, n)` for `k` inside `s`.
unfoldable pub substr : Bytes → ℕ → ℕ → Bytes
substr s k n = take n (drop k s)

pub bytes_eq-false : (a b : Bytes) → a ≢ b → bytes_eq a b ≡ false
bytes_eq-false a b h = ground (arith, bytes_eq_iff a b)

-- Whether the second string ends with the first.
unfoldable pub ends_with : Bytes → Bytes → Bool
unfolding bytes_eq is_empty
ends_with p [] = is_empty p
ends_with p (c ∷ cs) = bytes_eq p (c ∷ cs) || ends_with p cs
