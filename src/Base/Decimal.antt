-- ===== src/Base/Decimal.antt =====
-- `%d` of package fmt on a natural number.
use Prim.Native.Nat.{ℕ, zero, suc, ◌+◌, ◌/◌, ◌%◌}
use mathlib.Core.List.{[], ◌∷◌}
use jitenv.Base.Tests.{ltb, if◌then◌else◌}
use jitenv.Base.Strings.{Text}

-- a number has at most as many digits as its fuel
pub decimal_onto : ℕ → ℕ → Text → Text
decimal_onto zero n acc = acc
decimal_onto (suc f) n acc =
    let more = decimal_onto f (n / 10) ((b'0' + n % 10) ∷ acc) in
    if ltb n 10 then (b'0' + n) ∷ acc else more

unfoldable pub decimal : ℕ → Text
unfolding decimal_onto
decimal n = decimal_onto (n + 1) n []
