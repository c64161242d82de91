-- ===== src/Common/Integers.antt =====
-- strconv.ParseInt and Atoi to the base 10, whose errors the program ignores: the 64 bits of the value
-- that they return. A text that is no number gives 0, and one out of range the bound that it passes.
use Prim.Native.Nat.{ℕ, ◌+◌, ◌-◌, ◌*◌, ◌%◌, ◌^◌}
use mathlib.Core.Bool.{◌&&◌}
use mathlib.Core.Option.{Option, none, some}
use mathlib.Core.List.{[], ◌∷◌}
use i_filter_imitation.Common.Tests.{ltb, leb, ◌==◌, if◌then◌else◌}
use i_filter_imitation.Common.Strings.{Text}

-- ParseUint behind the digits that make `n`: none is a syntax error, and a number out of range ends the
-- loop with the greatest value.
unfoldable pub parse_uint : ℕ → Text → Option ℕ
parse_uint n [] = some n
parse_uint n (c ∷ s) =
    let m = n * 10 + (c - b'0') in
    let rest = parse_uint m s in
    if leb b'0' c && leb c b'9' then if leb (2 ^ 64) m then some (2 ^ 64 - 1) else rest else none

-- at least one digit
unfoldable pub parse_digits : Text → Option ℕ
unfolding parse_uint
parse_digits [] = none
parse_digits (c ∷ s) = parse_uint 0 (c ∷ s)

unfoldable pub positive : Option ℕ → ℕ
positive none = 0
positive (some n) = if leb (2 ^ 63) n then 2 ^ 63 - 1 else n

unfoldable pub negative : Option ℕ → ℕ
negative none = 0
negative (some n) = if ltb (2 ^ 63) n then 2 ^ 63 else (2 ^ 64 - n) % 2 ^ 64

unfoldable pub parse_int : Text → ℕ
unfolding parse_digits positive negative
parse_int [] = 0
parse_int (c ∷ s) =
    if c == b'-'
    then negative (parse_digits s)
    else if c == b'+'
    then positive (parse_digits s)
    else positive (parse_digits (c ∷ s))
