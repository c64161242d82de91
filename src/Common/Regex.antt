-- ===== src/Common/Regex.antt =====
-- Regular expressions over bytes, as far as the program uses package regexp: whether an expression
-- that is anchored at both ends matches a text. `Matches` is what an expression means, `match_string`
-- decides it by derivatives.
pub mod Laws
use Prim.Native.Nat.{ℕ}
use mathlib.Core.Path.{◌≡◌}
use mathlib.Core.Logic.{◌⊎◌}
use mathlib.Core.Bool.{Bool, true, false, ◌&&◌, ◌||◌}
use mathlib.Core.List.{[], ◌∷◌, ◌++◌}
use i_filter_imitation.Common.Strings.{Text}
use i_filter_imitation.Common.Tests.{if◌then◌else◌}

pub data Regex : Type 0 where
  nothing epsilon : Regex
  byte : (ℕ → Bool) → Regex
  alt seq : Regex → Regex → Regex
  star : Regex → Regex

-- A text that is texts of `P` one after the other.
pub data Star (P : Text → Type 0) : Text → Type 0 where
  stop : {u : Text} → u ≡ [] → Star P u
  more : {u : Text} (s t : Text) → u ≡ s ++ t → P s → Star P t → Star P u

abbrev pub Matches : Regex → Text → Type 0
Matches nothing u = ⊥
Matches epsilon u = u ≡ []
Matches (byte p) u = (c : ℕ) × (p c ≡ true) × (u ≡ c ∷ [])
Matches (alt r q) u = Matches r u ⊎ Matches q u
Matches (seq r q) u = (s : Text) × (t : Text) × (u ≡ s ++ t) × Matches r s × Matches q t
Matches (star r) u = Star (Matches r) u

unfoldable pub nullable : Regex → Bool
nullable nothing = false
nullable epsilon = true
nullable (byte p) = false
nullable (alt r q) = nullable r || nullable q
nullable (seq r q) = nullable r && nullable q
nullable (star r) = true

-- what the expression leaves to match behind the byte
unfoldable pub deriv : Regex → ℕ → Regex
unfolding nullable
deriv nothing c = nothing
deriv epsilon c = nothing
deriv (byte p) c = if p c then epsilon else nothing
deriv (alt r q) c = alt (deriv r c) (deriv q c)
deriv (seq r q) c =
    let d = deriv q c in if nullable r then alt (seq (deriv r c) q) d else seq (deriv r c) q
deriv (star r) c = seq (deriv r c) (star r)

unfoldable pub match_string : Regex → Text → Bool
unfolding nullable deriv
match_string r [] = nullable r
match_string r (c ∷ s) = match_string (deriv r c) s

-- r+
abbrev pub plus : Regex → Regex
plus r = seq r (star r)

-- r?
abbrev pub optional : Regex → Regex
optional r = alt r epsilon
