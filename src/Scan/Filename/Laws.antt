-- ===== src/Scan/Filename/Laws.antt =====
-- What name a file gets.
use mathlib.Core.List.{reverse-append, reverse-cons, reverse-reverse}
use i_filter_imitation.Common.{
  ltb, lt→ltb, length, ℕ, List, [], ◌∷◌, ◌++◌, reverse, true, false, none, some, Text, codes,
  drop_while, before_byte, before_byte-some, has_byte, has_byte-append, has_byte-reverse,
  split_of_lacks, split-append, ◌≡◌, ◌≢◌, ◌⊎◌, inl, inr, refl, arith, ap, sym, ◌∙◌, Option-cases,
  append_assoc,
}
use i_filter_imitation.Scan.Filename.{
  filename_from, from_path, from_part, from_parts, split_parts, trim_ascii_space, unquote, is_blank,
  download, pfx,
}

-- A name that is not empty, has no slash, and is the last segment of the path or the fallback.
pub record IsPathName (path name : Text) : Type 0 where
  pub some_name : name ≢ []
  pub no_slash : has_byte name b'/' ≡ false
  pub origin : (name ≡ download) ⊎ ((dir : Text) × (path ≡ dir ++ b'/' ∷ name))

download-IsPathName : (path : Text) → IsPathName path download
download-IsPathName path = record {
  some_name = λ e. cc;
  no_slash = unfold has_byte in refl;
  origin = inl refl;
}

segment-IsPathName :
    (path name rest : Text)
    → name ≢ []
    → reverse path ≡ name ++ b'/' ∷ rest
    → has_byte name b'/' ≡ false
    → IsPathName path (reverse name)
segment-IsPathName path name rest hn e lacks = record {
  some_name = λ z. hn (sym (reverse-reverse name) ∙ ap reverse z);
  no_slash = has_byte-reverse name b'/' ∙ lacks;
  origin = inr (
    reverse rest,
    sym (reverse-reverse path)
        ∙ ap reverse e
        ∙ reverse-append name (b'/' ∷ rest)
        ∙ ap (λ t. t ++ reverse name) (reverse-cons b'/' rest)
        ∙ append_assoc (reverse rest) (b'/' ∷ []) (reverse name),
  );
}

-- Without a file name in the header, the name is the last segment of the path, or `download`
-- where that is empty.
pub from_path-IsPathName : (path : Text) → IsPathName path (from_path path)
unfolding from_path
from_path-IsPathName path = elim (Option-cases (before_byte (reverse path) b'/')) [
  | inl e ↦ rw (e, from_path) (download-IsPathName path)
  | inr ([], e) ↦ rw (e, from_path) (download-IsPathName path)
  | inr (c ∷ name, e) ↦
      let (rest, joined, lacks) = before_byte-some (reverse path) b'/' (c ∷ name) e in
      rw (e, from_path) (segment-IsPathName path (c ∷ name) rest (λ z. cc) joined lacks)
]

abbrev attachment : Text
attachment = codes "attachment"

abbrev assigned : Text
assigned = codes "filename=\""

abbrev quote : Text
quote = b'"' ∷ []

abbrev pub header : Text → Text
header name = codes "attachment; filename=\"" ++ name ++ quote

split_parts-header :
    (name : Text)
    → has_byte name b';' ≡ false
    → split_parts (header name) ≡ attachment ∷ (b' ' ∷ assigned ++ name ++ quote) ∷ []
unfolding split_parts
split_parts-header name h =
    split-append attachment (b' ' ∷ assigned ++ name ++ quote) b';'
    ∙ ap (λ ps. attachment ∷ ps)
        (split_of_lacks (b' ' ∷ assigned ++ name ++ quote) b';'
          (unfold has_byte in has_byte-append name quote b';' ∙ rw h (unfold has_byte in refl)))

trim_ascii_space-part :
    (name : Text) → trim_ascii_space (b' ' ∷ assigned ++ name ++ quote) ≡ assigned ++ name ++ quote
unfolding trim_ascii_space drop_while
trim_ascii_space-part name =
    ap (λ t. reverse (drop_while is_blank t)) (reverse-append (assigned ++ name) quote)
    ∙ reverse-cons b'"' (reverse (assigned ++ name))
    ∙ ap (λ t. t ++ quote) (reverse-reverse (assigned ++ name))

unquote-quote : (name : Text) → unquote (b'"' ∷ name ++ quote) ≡ name
unfolding unquote
unquote-quote name = rw (reverse-append name quote, unquote) (reverse-reverse name)

long_enough : (name : Text) → ltb (length pfx) (length (assigned ++ name ++ quote)) ≡ true
long_enough name = lt→ltb (length pfx) _ (omega arith)

from_part-assigned : (name : Text) → from_part (assigned ++ name ++ quote) ≡ some name
unfolding from_part
from_part-assigned name = rw (long_enough name, unquote-quote name)

from_parts_second :
    (p q : Text) (ps : List Text) (name : Text)
    → from_part (trim_ascii_space p) ≡ none
    → from_part (trim_ascii_space q) ≡ some name
    → from_parts (p ∷ q ∷ ps) ≡ some name
unfolding from_parts
from_parts_second p q ps name e f = ground arith

attachment-none : from_part (trim_ascii_space attachment) ≡ none
unfolding from_part trim_ascii_space
attachment-none = refl

from_parts-header :
    (name : Text) → from_parts (attachment ∷ (b' ' ∷ assigned ++ name ++ quote) ∷ []) ≡ some name
from_parts-header name =
    from_parts_second attachment (b' ' ∷ assigned ++ name ++ quote) [] name attachment-none
      (ap from_part (trim_ascii_space-part name) ∙ from_part-assigned name)

filename_from-parts :
    (c : ℕ) (cd path name : Text)
    → from_parts (split_parts (c ∷ cd)) ≡ some name
    → filename_from (c ∷ cd) path ≡ name
unfolding filename_from
filename_from-parts c cd path name e = rw (e, filename_from)

-- The header that ServeFile writes for a name with no semicolon is read back as that name.
pub filename_from-header :
    (name path : Text) → has_byte name b';' ≡ false → filename_from (header name) path ≡ name
filename_from-header name path h =
    filename_from-parts b'a' (codes "ttachment; filename=\"" ++ name ++ quote) path name
      (ap from_parts (split_parts-header name h) ∙ from_parts-header name)
