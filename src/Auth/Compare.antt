-- ===== src/Auth/Compare.antt =====
-- The comparison in constant time of core/password_hash.cpp.
use email_server_backend.Base.{
  ℕ, zero, suc, ◌/◌, ◌^◌, ◌<◌, ◌≡◌, ◌↔◌, [], ◌∷◌, arith, Bytes, bytes_eq, bytes_eq_iff, length, All,
  ◌==◌,
}
use email_server_backend.Auth.PasswordHash.{xor, or, diff}

xor-zero : (w a b : ℕ) → a < 2 ^ w → b < 2 ^ w → (xor w a b ≡ 0) ↔ (a ≡ b)
unfolding xor
xor-zero zero a b h k = ground arith
xor-zero (suc w) a b h k = ground (arith, xor-zero w (a / 2) (b / 2))

or-zero : (w a b : ℕ) → a < 2 ^ w → b < 2 ^ w → (or w a b ≡ 0) ↔ (a ≡ 0) × (b ≡ 0)
unfolding or
or-zero zero a b h k = ground arith
or-zero (suc w) a b h k = ground (arith, or-zero w (a / 2) (b / 2))

xor-bound : (w a b : ℕ) → xor w a b < 2 ^ w
unfolding xor
xor-bound zero a b = ground arith
xor-bound (suc w) a b = ground (arith, xor-bound w (a / 2) (b / 2))

or-bound : (w a b : ℕ) → or w a b < 2 ^ w
unfolding or
or-bound zero a b = ground arith
or-bound (suc w) a b = ground (arith, or-bound w (a / 2) (b / 2))

diff-zero :
    (d : ℕ) (a b : Bytes)
    → d < 256
    → All (λ c. c < 256) a
    → All (λ c. c < 256) b
    → length a ≡ length b
    → (diff d a b ≡ 0) ↔ (d ≡ 0) × (a ≡ b)
unfolding diff
diff-zero d [] [] h p q e = ground arith
diff-zero d [] (c ∷ b) h p q e = absurd (omega (arith, e))
diff-zero d (c ∷ a) [] h p q e = absurd (omega (arith, e))
diff-zero d (x ∷ a) (y ∷ b) h p q e =
    let below : or 8 d (xor 8 x y) < 256 = or-bound 8 d (xor 8 x y) in
    ground (
      arith,
      xor-zero 8 x y p.0 q.0,
      or-zero 8 d (xor 8 x y) h (xor-bound 8 x y),
      diff-zero (or 8 d (xor 8 x y)) a b below p.1 q.1,
    )

-- The comparison that takes the same time for all bytes finds two byte sequences of one length to
-- be the same exactly if they are equal.
pub diff_iff :
    (a b : Bytes)
    → All (λ c. c < 256) a
    → All (λ c. c < 256) b
    → length a ≡ length b
    → (diff 0 a b == 0) ≡ bytes_eq a b
diff_iff a b h k e = ground (arith, diff-zero 0 a b (omega arith) h k e, bytes_eq_iff a b)
