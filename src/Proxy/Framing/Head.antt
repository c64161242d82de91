-- ===== src/Proxy/Framing/Head.antt =====
-- The head that loopWriteHead writes, read back.
use mathlib.Core.Bool.{false≢true}
use i_filter_imitation.Common.{
  ℕ, List, [], ◌∷◌, ◌++◌, append_assoc, append-nil, true, false, some, ◌==◌, Text, codes, text_eq,
  text_eq→eq, ◌≡◌, refl, sym, ap, ◌∙◌, arith, All, Bool-cases, inl, inr, to_lower, lower, ◌≢◌,
}
use i_filter_imitation.Proxy.Chunked.{crlf}
use i_filter_imitation.Proxy.Framing.{BodyFraming, is_dropped, is_member, equal_fold, write_lines}
use i_filter_imitation.Proxy.Framing.Message.{split_line, note_field, note_line, read_head}

-- A byte that does not end a line.
abbrev pub IsInline : ℕ → Type 0
IsInline c = ((c == b'\r') ≡ false) × ((c == b'\n') ≡ false)

-- A byte of a field's name.
abbrev pub IsNameByte : ℕ → Type 0
IsNameByte c = IsInline c × ((c == b':') ≡ false)

-- A field whose name and value can be told apart and which is one line, as net/http gives it.
abbrev pub IsField : Text × Text → Type 0
IsField (name, value) = All IsNameByte name × All IsInline value

pub IsInline-append : (xs ys : Text) → All IsInline xs → All IsInline ys → All IsInline (xs ++ ys)
IsInline-append [] ys p q = q
IsInline-append (x ∷ xs) ys (px, ps) q = (px, IsInline-append xs ys ps q)

IsNameByte-IsInline : (name : Text) → All IsNameByte name → All IsInline name
IsNameByte-IsInline [] _ = tt
IsNameByte-IsInline (c ∷ s) ((i, _), h) = (i, IsNameByte-IsInline s h)

read_head-inline :
    (f : BodyFraming) (line l s : Text)
    → All IsInline l
    → read_head f line (l ++ s) ≡ read_head f (line ++ l) s
unfolding read_head
read_head-inline f line [] s _ = ap (λ x. read_head f x s) (sym (append-nil line))
read_head-inline f line (c ∷ l) s ((r, n), h) =
    rw (r, n, read_head)
      (read_head-inline f (line ++ c ∷ []) l s h
        ∙ ap (λ x. read_head f x s) (append_assoc line (c ∷ []) l))

-- A line that is not empty.
pub read_head-line :
    (f : BodyFraming) (c : ℕ) (l s : Text)
    → All IsInline (c ∷ l)
    → read_head f [] ((c ∷ l) ++ (crlf ++ s)) ≡ read_head (note_line (c ∷ l) f) [] s
unfolding read_head
read_head-line f c l s h = read_head-inline f [] (c ∷ l) (crlf ++ s) h

pub read_head-empty : (f : BodyFraming) (s : Text) → read_head f [] (crlf ++ s) ≡ some (f, s)
unfolding read_head
read_head-empty f s = refl

split_line-field :
    (name value : Text) → All IsNameByte name → split_line (name ++ b':' ∷ value) ≡ (name, value)
unfolding split_line
split_line-field [] value _ = refl
split_line-field (c ∷ s) value ((_, n), h) = rw (n, split_line-field s value h, split_line) refl

-- A name that is not dropped is none of those that say how the body ends.
not_named :
    (name reserved : Text)
    → is_dropped name ≡ false
    → is_dropped reserved ≡ true
    → text_eq name reserved ≡ false
not_named name reserved kept dropped = elim (Bool-cases (text_eq name reserved)) [
  | inl e ↦ absurd (false≢true (sym kept ∙ ap is_dropped (text_eq→eq name reserved e) ∙ dropped))
  | inr e ↦ e
]

note_field-is_dropped :
    (name value : Text) (f : BodyFraming) → is_dropped name ≡ false → note_field name value f ≡ f
unfolding note_field is_dropped is_member equal_fold text_eq to_lower lower
note_field-is_dropped name value f h =
    let a = not_named name (codes "Connection") h refl in
    let b = not_named name (codes "Transfer-Encoding") h refl in
    let c = not_named name (codes "Content-Length") h refl in rw (a, b, c, note_field) refl

abbrev line_of : Text × Text → Text
line_of (name, value) = name ++ codes ": " ++ value

note_line-field :
    (line : Text × Text) (f : BodyFraming)
    → IsField line
    → is_dropped line.0 ≡ false
    → note_line (line_of line) f ≡ f
unfolding note_line
note_line-field (name, value) f (n, _) kept =
    ap (λ l. note_line l f) (append_assoc name (codes ": ") value)
    ∙ ap (λ (p : Text × Text). note_field p.0 p.1 f) (split_line-field name (b' ' ∷ value) n)
    ∙ note_field-is_dropped name (b' ' ∷ value) f kept

IsField-IsInline : (line : Text × Text) → IsField line → All IsInline (line_of line)
IsField-IsInline (name, value) (n, v) =
    IsInline-append (name ++ codes ": ") value
      (IsInline-append name (codes ": ") (IsNameByte-IsInline name n)
        ((refl, refl), ((refl, refl), tt)))
      v

read_head-nonempty :
    (f : BodyFraming) (l s : Text)
    → All IsInline l
    → l ≢ []
    → read_head f [] (l ++ (crlf ++ s)) ≡ read_head (note_line l f) [] s
read_head-nonempty f [] s h ne = absurd (ne refl)
read_head-nonempty f (c ∷ l) s h ne = read_head-line f c l s h

line_of-nonempty : (line : Text × Text) → line_of line ≢ []
line_of-nonempty ([], v) e = ground (arith, e)
line_of-nonempty (c ∷ s, v) e = ground (arith, e)

read_head-field :
    (line : Text × Text) (f : BodyFraming) (s : Text)
    → IsField line
    → is_dropped line.0 ≡ false
    → read_head f [] (line_of line ++ (crlf ++ s)) ≡ read_head f [] s
read_head-field line f s field kept =
    read_head-nonempty f (line_of line) s (IsField-IsInline line field) (line_of-nonempty line)
    ∙ ap (λ g. read_head g [] s) (note_line-field line f field kept)

-- The fields that are passed on are read over.
pub read_head-write_lines :
    (lines : List (Text × Text)) (f : BodyFraming) (s : Text)
    → All IsField lines
    → All (λ line. is_dropped line.0 ≡ false) lines
    → read_head f [] (write_lines lines ++ s) ≡ read_head f [] s
unfolding write_lines
read_head-write_lines [] f s _ _ = refl
read_head-write_lines ((k, v) ∷ lines) f s (field, fs) (kept, ks) =
    ap (read_head f []) (
      append_assoc (line_of (k, v) ++ crlf) (write_lines lines) s
      ∙ append_assoc (line_of (k, v)) crlf (write_lines lines ++ s))
    ∙ read_head-field (k, v) f (write_lines lines ++ s) field kept
    ∙ read_head-write_lines lines f s fs ks
