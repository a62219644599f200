-- ===== src/Common/Decimal.antt =====
-- Numbers as JavaScript writes them.
use Prim.Native.Nat.{ℕ, zero, suc, ◌+◌, ◌/◌, ◌%◌}
use mathlib.Core.List.{[], ◌∷◌}
use objy.Common.Tests.{ltb, if◌then◌else◌}
use objy.Common.Text.{Text}

-- `String(n)`; the quotient by 10 falls, so `n + 1` rounds are enough
decimal_onto : ℕ → ℕ → Text → Text
decimal_onto zero n out = out
decimal_onto (suc fuel) n out =
    let more = decimal_onto fuel (n / 10) ((48 + n % 10) ∷ out) in
    if ltb n 10 then (48 + n) ∷ out else more

unfoldable pub decimal : ℕ → Text
unfolding decimal_onto
decimal n = decimal_onto (n + 1) n []
