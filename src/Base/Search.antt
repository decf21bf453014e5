-- ===== src/Base/Search.antt =====
-- Where `std::string::find` finds a byte.
use mathlib.Core.Path.{◌≡◌, refl}
use mathlib.Core.Logic.{◌≢◌}
use mathlib.Core.Bool.{true}
use mathlib.Core.Option.{none, some}
use mathlib.Core.List.{[], ◌∷◌, ◌++◌}
use Prim.Native.Nat.{ℕ, ◌+◌}
use native.Mathlib.Omega.{arith}
use email_server_backend.Base.Lists.{length, drop-append, All}
use email_server_backend.Base.Text.{Bytes, starts_with, find, find_from}

pub find-byte :
    (c : ℕ) (a b : Bytes) → All (λ x. x ≢ c) a → find (c ∷ []) (a ++ c ∷ b) ≡ some (length a)
unfolding find starts_with
find-byte c [] b h = ground arith
find-byte c (x ∷ a) b h = ground (arith, find-byte c a b h.1)

pub find-no_byte : (c : ℕ) (a : Bytes) → All (λ x. x ≢ c) a → find (c ∷ []) a ≡ none
unfolding find starts_with
find-no_byte c [] h = ground arith
find-no_byte c (x ∷ a) h = ground (arith, find-no_byte c a h.1)

pub find_from-byte :
    (c : ℕ) (pre a b : Bytes)
    → All (λ x. x ≢ c) a
    → find_from (c ∷ []) (pre ++ (a ++ c ∷ b)) (length pre) ≡ some (length pre + length a)
unfolding find_from
find_from-byte c pre a b h = rw (drop-append pre (a ++ c ∷ b), find-byte c a b h) refl

pub starts_with-append : (p s : Bytes) → starts_with p (p ++ s) ≡ true
unfolding starts_with
starts_with-append [] s = refl
starts_with-append (c ∷ p) s = ground (arith, starts_with-append p s)

pub find-here : (p s : Bytes) → find p (p ++ s) ≡ some 0
unfolding find
find-here [] [] = refl
find-here [] (c ∷ s) = refl
find-here (c ∷ p) s = rw (starts_with-append (c ∷ p) s) refl
