-- ===== src/Proxy/Framing/Message.antt =====
-- How a client reads a response to a GET as RFC 9112 says: the lines of the head, the field among them
-- that tells how the body ends, and the body. Field names are compared in the canonical form in which
-- net/http gives them.
use i_filter_imitation.Common.{
  ℕ, ◌+◌, ◌-◌, ◌*◌, [], ◌∷◌, ◌++◌, true, false, ◌&&◌, Option, none, some, leb, ◌==◌, if◌then◌else◌,
  Text, codes, text_eq,
}
use i_filter_imitation.Proxy.Framing.{BodyFraming, until_close, by_chunks, by_length}
use i_filter_imitation.Proxy.Framing.Laws.{receive}

-- the name and the value of a field
unfoldable pub split_line : Text → Text × Text
split_line [] = ([], [])
split_line (c ∷ s) = let rest = split_line s in if c == b':' then ([], s) else (c ∷ rest.0, rest.1)

unfoldable pub read_decimal : ℕ → Text → Option ℕ
read_decimal v [] = some v
read_decimal v (c ∷ s) =
    let rest = read_decimal (v * 10 + (c - b'0')) s in
    if leb b'0' c && leb c b'9' then rest else none

-- the value of a Content-Length, behind its space
unfoldable pub read_length : Text → Option ℕ
unfolding read_decimal
read_length [] = none
read_length (c ∷ s) = if c == b' ' then read_decimal 0 s else none

unfoldable pub or_else : Option ℕ → BodyFraming → BodyFraming
or_else none f = f
or_else (some n) f = by_length n

-- What a field says of the end of the body, `f` by the fields before it.
unfoldable pub note_field : Text → Text → BodyFraming → BodyFraming
unfolding text_eq read_length or_else
note_field name value f =
    if text_eq name (codes "Connection")
    then if text_eq value (codes " close") then until_close else f
    else if text_eq name (codes "Transfer-Encoding")
    then if text_eq value (codes " chunked") then by_chunks else f
    else if text_eq name (codes "Content-Length")
    then or_else (read_length value) f
    else f

unfoldable pub note_line : Text → BodyFraming → BodyFraming
unfolding note_field split_line
note_line line f = note_field (split_line line).0 (split_line line).1 f

-- The head from the current line on, of which `line` has been read: what its fields say, and what stands
-- behind the empty line.
unfoldable pub read_head : BodyFraming → Text → Text → Option (BodyFraming × Text)
unfolding note_line
read_head f line [] = none
read_head f line (c ∷ s) = elim (c == b'\r') [
  | true ↦ read_head f line s
  | false ↦ elim (c == b'\n') [
    | true ↦ elim line [ [] ↦ some (f, s) | d ∷ ds ↦ read_head (note_line (d ∷ ds) f) [] s ]
    | false ↦ read_head f (line ++ c ∷ []) s
  ]
]

-- The body of the message and what stands behind it; a body that no field tells of ends with the
-- connection.
unfoldable pub read_message : ℕ → Text → Option (Text × Text)
unfolding read_head
read_message fuel s = elim (read_head until_close [] s) [
  | none ↦ none
  | some (f, rest) ↦ receive fuel f rest
]
