-- ===== src/Logger/Escape.antt =====
-- internal/logger/syslog5424.go: the values in the structured data of a message (escapeSyslog, nilify).
pub mod Laws
mod Tests
use i_filter_imitation.Common.{ℕ, [], ◌∷◌, ◌++◌, ◌==◌, if◌then◌else◌, Text, codes}

-- strings.ReplaceAll of one byte
unfoldable pub replace_all : Text → ℕ → Text → Text
replace_all [] c new = []
replace_all (a ∷ s) c new =
    let rest = replace_all s c new in if a == c then new ++ rest else a ∷ rest

unfoldable pub escape_syslog : Text → Text
unfolding replace_all
escape_syslog s =
    replace_all (replace_all (replace_all s b'\\' (codes "\\\\")) b'"' (codes "\\\"")) b']'
      (codes "\\]")

unfoldable pub nilify : Text → Text
nilify [] = codes "-"
nilify (c ∷ s) = c ∷ s

-- one field of buildSD: a blank, the name, and the value in quotes
unfoldable pub write_param : Text → Text → Text
unfolding escape_syslog nilify
write_param name value = b' ' ∷ name ++ codes "=\"" ++ escape_syslog (nilify value) ++ codes "\""
