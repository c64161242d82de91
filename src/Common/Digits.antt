-- ===== src/Common/Digits.antt =====
-- The format verbs %d and %x on a number.
use Prim.Native.Nat.{ℕ, zero, suc, ◌+◌, ◌-◌, ◌/◌, ◌%◌}
use mathlib.Core.List.{[], ◌∷◌}
use i_filter_imitation.Common.Tests.{ltb, ◌==◌, if◌then◌else◌}
use i_filter_imitation.Common.Strings.{Text}

unfoldable pub digit : ℕ → ℕ
digit d = if ltb d 10 then b'0' + d else b'a' + (d - 10)

-- the digits of `n` to the base `b` in front of `t`, at most `fuel` of them
unfoldable pub digits : ℕ → ℕ → ℕ → Text → Text
unfolding digit
digits b zero n t = t
digits b (suc fuel) n t =
    let rest = digits b fuel (n / b) (digit (n % b) ∷ t) in
    if n / b == 0 then digit (n % b) ∷ t else rest

-- A number has no more digits than it counts, and one more for 0.
unfoldable pub print_number : ℕ → ℕ → Text
unfolding digits
print_number b n = digits b (n + 1) n []
