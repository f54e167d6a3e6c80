-- ===== src/Base/Atoi.antt =====
-- Atoi of package strconv, for an int of 64 bits: the sign and the size of the number.
use Prim.Native.Nat.{ℕ, ◌+◌, ◌-◌, ◌*◌, ◌^◌}
use mathlib.Core.Bool.{Bool, true, false, ◌&&◌, not}
use mathlib.Core.List.{[], ◌∷◌}
use jitenv.Base.Tests.{◌==◌, ltb, leb, if◌then◌else◌}
use jitenv.Base.Lists.{all, is_empty}
use jitenv.Base.Strings.{Text}

-- a range error carries the sign, since the number is cut to the range
pub data Parsed : Type 0 where
  number : Bool → ℕ → Parsed
  too_large : Bool → Parsed
  no_number : Parsed

abbrev pub is_digit : ℕ → Bool
is_digit c = leb b'0' c && leb c b'9'

abbrev pub digits_onto : ℕ → Text → ℕ
digits_onto n [] = n
digits_onto n (c ∷ cs) = digits_onto (n * 10 + (c - b'0')) cs

abbrev pub in_range : Bool → ℕ → Parsed
in_range negative n =
    if (if negative then leb n (2 ^ 63) else ltb n (2 ^ 63))
    then number negative n
    else too_large negative

abbrev pub digits : Bool → Text → Parsed
digits negative s =
    if not (is_empty s) && all is_digit s then in_range negative (digits_onto 0 s) else no_number

unfoldable pub atoi : Text → Parsed
atoi [] = no_number
atoi (c ∷ cs) =
    if c == b'-'
    then digits true cs
    else if c == b'+'
    then digits false cs
    else digits false (c ∷ cs)
