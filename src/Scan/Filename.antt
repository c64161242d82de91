-- ===== src/Scan/Filename.antt =====
-- internal/scan/util.go: the name under which a file is offered for download.
pub mod Laws
mod Tests
use Prim.Native.Nat.{bit_or}
use i_filter_imitation.Common.{
  ℕ, ◌+◌, ◌-◌, List, [], ◌∷◌, reverse, Bool, true, false, ◌&&◌, ◌||◌, Option, none, some, ltb, leb,
  ◌==◌, if◌then◌else◌, Text, codes, split, trim, before_byte, length, take, drop,
}

-- `splitParts` cuts at every semicolon, as strings.Split does.
pub split_parts : Text → List Text
unfolding split
split_parts s = split s b';'

pub is_blank : ℕ → Bool
is_blank c = c == b' ' || c == b'\t'

pub trim_ascii_space : Text → Text
unfolding trim is_blank
trim_ascii_space s = trim is_blank s

-- ca == cb for ca, cb := a[i]|0x20, b[i]|0x20
pub fold_byte_eq : ℕ → ℕ → Bool
fold_byte_eq a b = bit_or a 0x20 == bit_or b 0x20

-- The two lengths are compared first.
pub fold_bytes : Text → Text → Bool
unfolding fold_byte_eq
fold_bytes [] _ = true
fold_bytes (_ ∷ _) [] = true
fold_bytes (a ∷ s) (b ∷ t) = let rest = fold_bytes s t in if fold_byte_eq a b then rest else false

pub fold_equal : Text → Text → Bool
unfolding fold_bytes
fold_equal a b = if length a == length b then fold_bytes a b else false

abbrev pub pfx : Text
pfx = codes "filename="

-- name[1 : len(name)-1] of a name in quotes, or the name
pub unquote : Text → Text
unquote [] = []
unquote (c ∷ name) = elim (reverse name) [
  | [] ↦ c ∷ name
  | last ∷ middle ↦ if c == b'"' && last == b'"' then reverse middle else c ∷ name
]

pub from_part : Text → Option Text
unfolding fold_equal unquote
from_part part =
    if ltb (length pfx) (length part) && fold_equal (take (length pfx) part) pfx
    then some (unquote (drop (length pfx) part))
    else none

-- the loop over the parts of Content-Disposition
pub from_parts : List Text → Option Text
unfolding from_part trim_ascii_space
from_parts [] = none
from_parts (part ∷ parts) =
    let rest = from_parts parts in
    elim (from_part (trim_ascii_space part)) [ none ↦ rest | some name ↦ some name ]

abbrev pub download : Text
download = codes "download"

-- What stands behind the last slash, if that is not empty.
pub from_path : Text → Text
unfolding before_byte
from_path path = elim (before_byte (reverse path) b'/') [
  | none ↦ download
  | some [] ↦ download
  | some (c ∷ name) ↦ reverse (c ∷ name)
]

-- The header is the empty text where the response has none.
pub filename_from : Text → Text → Text
unfolding from_parts split_parts from_path
filename_from [] path = from_path path
filename_from (c ∷ cd) path = elim (from_parts (split_parts (c ∷ cd))) [
  | none ↦ from_path path
  | some name ↦ name
]
