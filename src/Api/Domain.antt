-- ===== src/Api/Domain.antt =====
-- internal/api/handler.go: the regular expression of the domains that may be added.
pub mod Labels
pub mod Grammar
pub mod Normal
mod Tests
use i_filter_imitation.Common.{ℕ, Bool, ◌&&◌, ◌||◌, leb, ◌==◌, Text}
use i_filter_imitation.Common.Regex.{Regex, byte, seq, star, plus, optional, match_string}

-- [a-z0-9] and [a-z0-9-]
abbrev pub alnum : ℕ → Bool
alnum c = leb b'a' c && leb c b'z' || leb b'0' c && leb c b'9'

abbrev pub alnum_dash : ℕ → Bool
alnum_dash c = alnum c || c == b'-'

abbrev pub lit : ℕ → Regex
lit c = byte (λ d. d == c)

-- [a-z0-9]([a-z0-9-]*[a-z0-9])?
abbrev pub label_re : Regex
label_re = seq (byte alnum) (optional (seq (star (byte alnum_dash)) (byte alnum)))

-- [a-z0-9]{2,}
abbrev pub top_re : Regex
top_re = seq (byte alnum) (seq (byte alnum) (star (byte alnum)))

-- (label\.)+top
abbrev pub name_re : Regex
name_re = seq (plus (seq label_re (lit b'.'))) top_re

abbrev pub domain_re : Regex
domain_re = seq (optional (seq (lit b'*') (lit b'.'))) name_re

unfoldable pub is_valid_domain : Text → Bool
unfolding match_string
is_valid_domain domain = match_string domain_re domain
