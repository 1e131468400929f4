-- ===== src/Base/Decimal.antt =====
-- The decimal print of a number (`%d` and strconv.Itoa of a number that is not negative).
use Prim.Native.Nat.{ℕ, zero, suc, ◌+◌, ◌/◌, ◌%◌}
use mathlib.Core.List.{[], ◌∷◌}
use devm.Base.Tests.{ltb, if◌then◌else◌}
use devm.Base.Text.{Bytes}

-- One digit for each round; a number has fewer digits than its value plus one.
digits : ℕ → ℕ → Bytes → Bytes
digits zero n out = out
digits (suc f) n out =
    let last = (b'0' + n % 10) ∷ out in
    let rest = digits f (n / 10) last in if ltb n 10 then last else rest

unfoldable pub decimal : ℕ → Bytes
unfolding digits
decimal n = digits (suc n) n []
