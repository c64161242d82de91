-- ===== src/Proxy/HostPort.antt =====
-- net.SplitHostPort of the Go standard library, as internal/proxy uses it: the host and the port,
-- or none where Go returns an error.
mod Tests
use i_filter_imitation.Common.{
  ℕ, ◌+◌, [], ◌∷◌, reverse, Option, none, some, ◌==◌, ◌||◌, if◌then◌else◌, Text, codes, before_byte,
  has_byte, length, drop, ◌≡◌, refl,
}

-- The text before the last `c`, and the text behind it.
unfoldable pub cut_last : Text → ℕ → Option (Text × Text)
unfolding before_byte
cut_last s c = elim (before_byte (reverse s) c) [
  | none ↦ none
  | some tail ↦ some (reverse (drop (length tail + 1) (reverse s)), reverse tail)
]

-- A host in brackets: the first `]` stands right before the last colon.
unfoldable pub bracketed : Text → Text → Option (Text × Text)
unfolding before_byte has_byte
bracketed inner port = elim (before_byte inner b']') [
  | none ↦ none
  | some host ↦
      if length inner == length host + 1
      then if has_byte host b'[' || has_byte port b'[' || has_byte port b']'
        then none
        else some (host, port)
      else none
]

unfoldable pub plain : Text → Text → Option (Text × Text)
unfolding has_byte
plain host port =
    if has_byte host b':'
    then none
    else if has_byte host b'[' || has_byte port b'[' || has_byte host b']' || has_byte port b']'
    then none
    else some (host, port)

unfoldable pub by_first : Text → Text → Option (Text × Text)
unfolding bracketed plain
by_first [] port = plain [] port
by_first (c ∷ inner) port = if c == b'[' then bracketed inner port else plain (c ∷ inner) port

unfoldable pub split_host_port : Text → Option (Text × Text)
unfolding cut_last by_first
split_host_port s = elim (cut_last s b':') [ none ↦ none | some (host, port) ↦ by_first host port ]
