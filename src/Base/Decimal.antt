-- ===== src/Base/Decimal.antt =====
-- `std::to_string` of a non-negative integer. A number below 2 ^ fuel is printed in full with
-- that fuel, since each digit divides it by ten.
use Prim.Native.Nat.{ℕ, zero, suc, ◌+◌, ◌/◌, ◌%◌}
use mathlib.Core.List.{[], ◌∷◌}
use email_server_backend.Base.Tests.{ltb, if◌then◌else◌}
use email_server_backend.Base.Text.{Bytes}

unfoldable pub decimal : ℕ → ℕ → Bytes → Bytes
decimal zero n after = after
decimal (suc fuel) n after =
    let digit = b'0' + n % 10 in
    let longer = decimal fuel (n / 10) (digit ∷ after) in if ltb n 10 then digit ∷ after else longer

unfoldable pub to_string : ℕ → Bytes
unfolding decimal
to_string n = decimal (suc n) n []
