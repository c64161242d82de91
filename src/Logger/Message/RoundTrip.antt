-- ===== src/Logger/Message/RoundTrip.antt =====
-- The structured data as a log server reads it.
use i_filter_imitation.Common.{
  List, [], ◌∷◌, ◌++◌, append_assoc, Option, none, some, Text, codes, cut_prefix,
  cut_prefix_of_append, ◌≡◌, refl, sym, ap, ◌∙◌, subst,
}
use i_filter_imitation.Logger.Escape.{escape_syslog, nilify, write_param}
use i_filter_imitation.Logger.Escape.Laws.{read_value, read_value-escape_syslog}
use i_filter_imitation.Logger.Message.{AccessRecord, sd_id, fields, write_params, build_sd}

abbrev opening : Text → Text
opening name = b' ' ∷ name ++ codes "=\""

-- a parameter of the name: its value, and what is behind it
abbrev pub read_param : Text → Text → Option (Text × Text)
read_param name t = elim (cut_prefix t (opening name)) [ none ↦ none | some s ↦ read_value s ]

abbrev with_value : Text → Option (List Text × Text) → Option (List Text × Text)
with_value v none = none
with_value v (some (vs, rest)) = some (v ∷ vs, rest)

-- the values of parameters of these names, in this order
unfoldable pub read_params : List Text → Text → Option (List Text × Text)
unfolding cut_prefix
read_params [] t = some ([], t)
read_params (name ∷ names) t = elim (read_param name t) [
  | none ↦ none
  | some (v, rest) ↦ with_value v (read_params names rest)
]

-- the values of an element `[id …]`
abbrev pub read_element : List Text → Option (List Text × Text) → Option (List Text × Text)
read_element names none = none
read_element names (some (vs, rest)) = elim (cut_prefix rest (codes "]")) [
  | none ↦ none
  | some behind ↦ some (vs, behind)
]

unfoldable pub read_sd : List Text → Text → Option (List Text × Text)
unfolding read_params cut_prefix
read_sd names t = elim (cut_prefix t (b'[' ∷ sd_id)) [
  | none ↦ none
  | some s ↦ read_element names (read_params names s)
]

abbrev pub names_of : List (Text × Text) → List Text
names_of [] = []
names_of ((k, v) ∷ fs) = k ∷ names_of fs

abbrev pub values_of : List (Text × Text) → List Text
values_of [] = []
values_of ((k, v) ∷ fs) = nilify v ∷ values_of fs

write_param-opening :
    (k v t : Text) → write_param k v ++ t ≡ opening k ++ (escape_syslog (nilify v) ++ b'"' ∷ t)
unfolding write_param
write_param-opening k v t = ap (◌∷◌ b' ') (
    append_assoc ((k ++ codes "=\"") ++ escape_syslog (nilify v)) (codes "\"") t
    ∙ append_assoc (k ++ codes "=\"") (escape_syslog (nilify v)) (codes "\"" ++ t))

read_param-opening :
    (k v t : Text)
    → read_param k (opening k ++ (escape_syslog (nilify v) ++ b'"' ∷ t)) ≡ some (nilify v, t)
read_param-opening k v t =
    subst (λ o. (elim o [ none ↦ none | some s ↦ read_value s ]) ≡ some (nilify v, t))
      (sym (cut_prefix_of_append (opening k) (escape_syslog (nilify v) ++ b'"' ∷ t)))
      (read_value-escape_syslog (nilify v) t)

read_param-write_param : (k v t : Text) → read_param k (write_param k v ++ t) ≡ some (nilify v, t)
read_param-write_param k v t =
    ap (read_param k) (write_param-opening k v t) ∙ read_param-opening k v t

-- what `read_params` does with the first parameter that was read
abbrev behind_first : List Text → Option (Text × Text) → Option (List Text × Text)
behind_first names none = none
behind_first names (some (v, rest)) = with_value v (read_params names rest)

read_params-first :
    (k : Text) (names : List Text) (t : Text)
    → read_params (k ∷ names) t ≡ behind_first names (read_param k t)
unfolding read_params
read_params-first k names t = by_result (read_param k t)
  where
    by_result :
        (o : Option (Text × Text))
        → (elim o [ none ↦ none | some (v, rest) ↦ with_value v (read_params names rest) ])
          ≡ behind_first names o
    by_result none = refl
    by_result (some (v, rest)) = refl

read_params-write_params :
    (fs : List (Text × Text)) (t : Text)
    → read_params (names_of fs) (write_params fs ++ t) ≡ some (values_of fs, t)
read_params-write_params [] t = unfold read_params write_params in refl
read_params-write_params ((k, v) ∷ fs) t =
    ap (read_params (k ∷ names_of fs)) (split_first k v fs t)
    ∙ read_params-first k (names_of fs) (write_param k v ++ (write_params fs ++ t))
    ∙ ap (behind_first (names_of fs)) (read_param-write_param k v (write_params fs ++ t))
    ∙ ap (with_value (nilify v)) (read_params-write_params fs t)
  where
    split_first :
        (k v : Text) (fs : List (Text × Text)) (t : Text)
        → write_params ((k, v) ∷ fs) ++ t ≡ write_param k v ++ (write_params fs ++ t)
    split_first k v fs t = unfold write_params in append_assoc (write_param k v) (write_params fs) t

-- an element with these parameters
abbrev element : List (Text × Text) → Text
element fs = b'[' ∷ sd_id ++ write_params fs ++ codes "]"

read_sd-element :
    (fs : List (Text × Text)) (t : Text)
    → read_sd (names_of fs) (element fs ++ t) ≡ some (values_of fs, t)
unfolding read_sd cut_prefix
read_sd-element fs t =
    ap (λ x. read_element (names_of fs) (read_params (names_of fs) x))
      (append_assoc (write_params fs) (codes "]") t)
    ∙ ap (read_element (names_of fs)) (read_params-write_params fs (codes "]" ++ t))

-- A log server that reads the structured data of a record gets the values of all 16 fields, each as it
-- was, a blank one as `-`, whatever bytes they hold, and what stands behind is untouched.
pub read_sd-build_sd :
    (r : AccessRecord) (t : Text)
    → read_sd (names_of (fields r)) (build_sd r ++ t) ≡ some (values_of (fields r), t)
unfolding build_sd
read_sd-build_sd r t = read_sd-element (fields r) t
