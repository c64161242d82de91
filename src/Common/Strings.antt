-- ===== src/Common/Strings.antt =====
-- Go strings as lists of bytes, and the functions of package strings that the program calls.
-- Letters, white space and case are those of ASCII; a byte from 128 up is no letter and no space.
use Prim.Native.Nat.{ℕ, ◌+◌}
use Prim.Native.Char.{code}
use Prim.Native.String.{String}
use mathlib.Core.Path.{◌≡◌, refl, sym, ap, ◌∙◌}
use mathlib.Core.Logic.{◌↔◌, ◌≢◌, inl, inr}
use mathlib.Core.Bool.{Bool, true, false, ◌&&◌, ◌||◌}
use mathlib.Core.Option.{Option, none, some}
use mathlib.Core.List.{
  List, [], ◌∷◌, ◌++◌, map, reverse, reverse-cons, reverse-append, reverse-reverse, append_assoc,
}
use native.Mathlib.Omega.{arith}
use i_filter_imitation.Common.Tests.{◌==◌, leb, if◌then◌else◌, ==_refl, Bool-cases, Option-cases}

abbrev pub Text : Type 0
Text = List ℕ

-- The bytes of an ASCII literal.
abbrev pub codes : String → Text
codes String.[] = []
codes (String.◌∷◌ c s) = code c ∷ codes s

-- a == b on strings
unfoldable pub text_eq : Text → Text → Bool
text_eq [] [] = true
text_eq [] (_ ∷ _) = false
text_eq (_ ∷ _) [] = false
text_eq (a ∷ s) (b ∷ t) = a == b && text_eq s t

pub text_eq→eq : (s t : Text) → text_eq s t ≡ true → s ≡ t
unfolding text_eq
text_eq→eq [] [] h = refl
text_eq→eq [] (b ∷ t) h = cc
text_eq→eq (a ∷ s) [] h = cc
text_eq→eq (a ∷ s) (b ∷ t) h = ground (arith, text_eq→eq s t)

pub text_eq_refl : (s : Text) → text_eq s s ≡ true
unfolding text_eq
text_eq_refl [] = refl
text_eq_refl (a ∷ s) = ground (arith, text_eq_refl s)

pub text_eq_swap : (s t : Text) → text_eq s t ≡ text_eq t s
unfolding text_eq
text_eq_swap [] [] = refl
text_eq_swap [] (b ∷ t) = refl
text_eq_swap (a ∷ s) [] = refl
text_eq_swap (a ∷ s) (b ∷ t) = ground (arith, text_eq_swap s t)

pub text_eq-append : (p s t : Text) → text_eq (p ++ s) (p ++ t) ≡ text_eq s t
unfolding text_eq
text_eq-append [] s t = refl
text_eq-append (a ∷ p) s t = rw (==_refl a) (text_eq-append p s t)

pub text_eq_iff : (s t : Text) → (text_eq s t ≡ true) ↔ (s ≡ t)
text_eq_iff s t = (text_eq→eq s t, λ e. rw e (text_eq_refl t))

-- What is behind the prefix, if the text begins with it (strings.CutPrefix, HasPrefix).
unfoldable pub cut_prefix : Text → Text → Option Text
cut_prefix s [] = some s
cut_prefix [] (_ ∷ _) = none
cut_prefix (a ∷ s) (p ∷ ps) = let rest = cut_prefix s ps in if a == p then rest else none

unfoldable pub has_prefix : Text → Text → Bool
unfolding cut_prefix
has_prefix s p = elim (cut_prefix s p) [ none ↦ false | some _ ↦ true ]

unfoldable pub trim_prefix : Text → Text → Text
unfolding cut_prefix
trim_prefix s p = elim (cut_prefix s p) [ none ↦ s | some rest ↦ rest ]

-- What is before the suffix.
unfoldable pub cut_suffix : Text → Text → Option Text
unfolding cut_prefix
cut_suffix s t = elim (cut_prefix (reverse s) (reverse t)) [
  | none ↦ none
  | some rest ↦ some (reverse rest)
]

unfoldable pub has_suffix : Text → Text → Bool
unfolding cut_suffix
has_suffix s t = elim (cut_suffix s t) [ none ↦ false | some _ ↦ true ]

unfoldable pub trim_suffix : Text → Text → Text
unfolding cut_suffix
trim_suffix s t = elim (cut_suffix s t) [ none ↦ s | some rest ↦ rest ]

unfoldable pub lower : ℕ → ℕ
lower c = if leb b'A' c && leb c b'Z' then c + 32 else c

unfoldable pub to_lower : Text → Text
unfolding lower
to_lower s = map lower s

unfoldable pub is_space : ℕ → Bool
is_space c = c == 32 || (leb 9 c && leb c 13)

unfoldable pub drop_while : (ℕ → Bool) → Text → Text
drop_while p [] = []
drop_while p (c ∷ s) = let rest = drop_while p s in if p c then rest else c ∷ s

unfoldable pub trim : (ℕ → Bool) → Text → Text
unfolding drop_while
trim p s = reverse (drop_while p (reverse (drop_while p s)))

unfoldable pub trim_space : Text → Text
unfolding trim is_space
trim_space s = trim is_space s

-- strings.Split by one byte: always at least one part.
abbrev pub push_head : ℕ → List Text → List Text
push_head c [] = (c ∷ []) ∷ []
push_head c (p ∷ ps) = (c ∷ p) ∷ ps

unfoldable pub split : Text → ℕ → List Text
split [] sep = [] ∷ []
split (c ∷ s) sep = let rest = split s sep in if c == sep then [] ∷ rest else push_head c rest

-- strings.Contains
unfoldable pub contains : Text → Text → Bool
unfolding has_prefix
contains [] t = has_prefix [] t
contains (c ∷ s) t = has_prefix (c ∷ s) t || contains s t

-- The bytes before the first one that is `c`, or none if there is no such byte.
unfoldable pub before_byte : Text → ℕ → Option Text
before_byte [] c = none
before_byte (a ∷ s) c =
    let rest = before_byte s c in
    if a == c then some [] else elim rest [ none ↦ none | some p ↦ some (a ∷ p) ]

unfoldable pub has_byte : Text → ℕ → Bool
has_byte [] c = false
has_byte (a ∷ s) c = a == c || has_byte s c

-- A prefix that was cut stood before what is left.
pub cut_prefix-append : (s p r : Text) → cut_prefix s p ≡ some r → s ≡ p ++ r
unfolding cut_prefix
cut_prefix-append s [] r h = ground arith
cut_prefix-append [] (b ∷ ps) r h = cc
cut_prefix-append (a ∷ s) (b ∷ ps) r h = ground (arith, cut_prefix-append s ps r)

pub cut_prefix_of_append : (p r : Text) → cut_prefix (p ++ r) p ≡ some r
unfolding cut_prefix
cut_prefix_of_append [] r = refl
cut_prefix_of_append (a ∷ p) r = rw (==_refl a) (cut_prefix_of_append p r)

-- What strings.Join makes of the parts.
unfoldable pub join : List Text → ℕ → Text
join [] sep = []
join (p ∷ []) sep = p
join (p ∷ q ∷ ps) sep = p ++ sep ∷ join (q ∷ ps) sep

pub split-ne-nil : (s : Text) (sep : ℕ) → split s sep ≢ []
unfolding split
split-ne-nil [] sep = λ e. cc
split-ne-nil (c ∷ s) sep = ground (arith, split-ne-nil s sep)

-- Splitting distributes over a separator.
pub split-append : (x y : Text) (sep : ℕ) → split (x ++ sep ∷ y) sep ≡ split x sep ++ split y sep
unfolding split
split-append [] y sep = ground (arith, split-ne-nil y sep)
split-append (c ∷ x) y sep = ground (arith, split-append x y sep, split-ne-nil x sep)

join-push_head :
    (c : ℕ) (ps : List Text) (sep : ℕ) → ps ≢ [] → join (push_head c ps) sep ≡ c ∷ join ps sep
unfolding join
join-push_head c [] sep h = absurd (h refl)
join-push_head c (p ∷ []) sep h = refl
join-push_head c (p ∷ q ∷ ps) sep h = refl

pub join-append :
    (ps qs : List Text) (sep : ℕ)
    → ps ≢ []
    → qs ≢ []
    → join (ps ++ qs) sep ≡ join ps sep ++ sep ∷ join qs sep
unfolding join
join-append [] qs sep h k = absurd (h refl)
join-append (p ∷ []) [] sep h k = absurd (k refl)
join-append (p ∷ []) (q ∷ qs) sep h k = refl
join-append (p ∷ r ∷ ps) qs sep h k = rw (join-append (r ∷ ps) qs sep (λ e. cc) k, append_assoc)

join-nil_cons : (ps : List Text) (sep : ℕ) → ps ≢ [] → join ([] ∷ ps) sep ≡ sep ∷ join ps sep
unfolding join
join-nil_cons [] sep h = absurd (h refl)
join-nil_cons (p ∷ ps) sep h = refl

-- Joining the parts of a split gives the text back.
pub join-split : (s : Text) (sep : ℕ) → join (split s sep) sep ≡ s
unfolding split
join-split [] sep = unfold join in refl
join-split (c ∷ s) sep = ground (
  arith,
  join-nil_cons (split s sep) sep (split-ne-nil s sep),
  join-push_head c (split s sep) sep (split-ne-nil s sep),
  join-split s sep,
)

pub before_byte-some :
    (s : Text) (c : ℕ) (p : Text)
    → before_byte s c ≡ some p
    → (rest : Text) × (s ≡ p ++ c ∷ rest) × (has_byte p c ≡ false)
unfolding before_byte has_byte
before_byte-some [] c p h = cc
before_byte-some (a ∷ s) c p h = elim (Bool-cases (a == c)) [
  | inl e ↦ (s, ground arith, ground arith)
  | inr e ↦ elim (Option-cases (before_byte s c)) [
    | inl z ↦ ground arith
    | inr (q, z) ↦
        let (rest, split_here, lacks) = before_byte-some s c q z in
        (rest, ground arith, ground arith)
  ]
]

pub before_byte-none : (s : Text) (c : ℕ) → before_byte s c ≡ none → has_byte s c ≡ false
unfolding before_byte has_byte
before_byte-none [] c h = refl
before_byte-none (a ∷ s) c h = ground (arith, before_byte-none s c)

pub has_byte-append : (s t : Text) (c : ℕ) → has_byte (s ++ t) c ≡ (has_byte s c || has_byte t c)
unfolding has_byte
has_byte-append [] t c = refl
has_byte-append (a ∷ s) t c = ground (arith, has_byte-append s t c)

pub has_byte-reverse : (s : Text) (c : ℕ) → has_byte (reverse s) c ≡ has_byte s c
has_byte-reverse [] c = refl
has_byte-reverse (a ∷ s) c =
    rw (reverse-cons a s, has_byte-append (reverse s) (a ∷ []) c, has_byte-reverse s c)
      (unfold has_byte in swapped (has_byte s c) (a == c))
  where
    swapped : (x y : Bool) → (x || (y || false)) ≡ (y || x)
    swapped x y = ground arith

-- A text with no separator is its own only part.
pub split_of_lacks : (s : Text) (sep : ℕ) → has_byte s sep ≡ false → split s sep ≡ s ∷ []
unfolding split has_byte
split_of_lacks [] sep h = refl
split_of_lacks (a ∷ s) sep h = ground (arith, split_of_lacks s sep)

pub cut_suffix-append : (s t r : Text) → cut_suffix s t ≡ some r → s ≡ r ++ t
unfolding cut_suffix
cut_suffix-append s t r h = elim (Option-cases (cut_prefix (reverse s) (reverse t))) [
  | inl e ↦ cc
  | inr (q, e) ↦
      sym (reverse-reverse s)
      ∙ ap reverse (cut_prefix-append (reverse s) (reverse t) q e)
      ∙ reverse-append (reverse t) q
      ∙ ap (λ u. reverse q ++ u) (reverse-reverse t)
      ∙ ap (λ u. u ++ t) (ground arith)
]

pub cut_suffix_of_append : (r t : Text) → cut_suffix (r ++ t) t ≡ some r
unfolding cut_suffix
cut_suffix_of_append r t =
    rw (reverse-append r t, cut_prefix_of_append (reverse t) (reverse r), cut_suffix)
      (ap some (reverse-reverse r))

pub has_suffix_of_append : (r t : Text) → has_suffix (r ++ t) t ≡ true
unfolding has_suffix
has_suffix_of_append r t = ground (arith, cut_suffix_of_append r t)

pub trim_suffix_of_append : (r t : Text) → trim_suffix (r ++ t) t ≡ r
unfolding trim_suffix
trim_suffix_of_append r t = ground (arith, cut_suffix_of_append r t)

pub trim_prefix_of_append : (p r : Text) → trim_prefix (p ++ r) p ≡ r
unfolding trim_prefix
trim_prefix_of_append p r = ground (arith, cut_prefix_of_append p r)
