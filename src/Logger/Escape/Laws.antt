-- ===== src/Logger/Escape/Laws.antt =====
-- The value of a parameter as RFC 5424 reads it.
use i_filter_imitation.Common.{
  ℕ, [], ◌∷◌, ◌++◌, Bool, true, false, ◌||◌, Option, none, some, ◌==◌, ==_iff, subst, if◌then◌else◌,
  Text, ◌≡◌, refl, sym, ap, ◌∙◌, arith, Bool-cases, inl, inr,
}
use i_filter_imitation.Logger.Escape.{replace_all, escape_syslog}

-- the bytes with a backslash in front
pub is_special : ℕ → Bool
is_special c = c == b'\\' || c == b'"' || c == b']'

abbrev pub keep : ℕ → Option (Text × Text) → Option (Text × Text)
keep c none = none
keep c (some (v, rest)) = some (c ∷ v, rest)

-- A value up to its closing quote, and what stands behind it. A backslash in front of a special byte is
-- left out; a special byte without one is not allowed in a value.
pub read_value : Text → Option (Text × Text)
read_value [] = none
read_value (c ∷ []) = if c == b'"' then some ([], []) else none
read_value (c ∷ e ∷ s) =
    let behind = read_value s in
    let next = read_value (e ∷ s) in
    if c == b'"'
    then some ([], e ∷ s)
    else if c == b']'
    then none
    else if c == b'\\'
    then if is_special e then keep e behind else keep c next
    else keep c next

-- Byte by byte: a special byte gets a backslash, any other stays.
abbrev Spelled : Text → ℕ → Type 0
Spelled s c =
    escape_syslog (c ∷ s)
    ≡ (if is_special c then b'\\' ∷ c ∷ escape_syslog s else c ∷ escape_syslog s)

Spelled-subst : (s : Text) (c k : ℕ) → (c == k) ≡ true → Spelled s k → Spelled s c
Spelled-subst s c k e p = subst (Spelled s) (sym ((==_iff c k).0 e)) p

escape_syslog_cons : (s : Text) (c : ℕ) → Spelled s c
unfolding escape_syslog replace_all is_special
escape_syslog_cons s c = elim (Bool-cases (c == b'\\')) [
  | inl e ↦ Spelled-subst s c b'\\' e refl
  | inr e ↦ elim (Bool-cases (c == b'"')) [
    | inl f ↦ Spelled-subst s c b'"' f refl
    | inr f ↦ elim (Bool-cases (c == b']')) [
      | inl g ↦ Spelled-subst s c b']' g refl
      | inr g ↦ rw (e, f, g) refl
    ]
  ]
]

not_special :
    (c : ℕ)
    → is_special c ≡ false
    → ((c == b'\\') ≡ false) × ((c == b'"') ≡ false) × ((c == b']') ≡ false)
unfolding is_special
not_special c h = ground arith

read_value_plain :
    (c : ℕ) (t : Text) → is_special c ≡ false → read_value (c ∷ t) ≡ keep c (read_value t)
unfolding read_value
read_value_plain c [] h = rw ((not_special c h).1) refl
read_value_plain c (e ∷ t) h =
    rw ((not_special c h).1, (not_special c h).2, (not_special c h).0) refl

read_value_special :
    (c : ℕ) (t : Text) → is_special c ≡ true → read_value (b'\\' ∷ c ∷ t) ≡ keep c (read_value t)
unfolding read_value
read_value_special c t h = rw h refl

read_value_quote : (t : Text) → read_value (b'"' ∷ t) ≡ some ([], t)
unfolding read_value
read_value_quote [] = refl
read_value_quote (c ∷ t) = refl

-- An escaped value, up to the quote behind it, is read back as the value, whatever bytes it holds, and
-- what stands behind the quote is untouched.
pub read_value-escape_syslog : (s t : Text) → read_value (escape_syslog s ++ b'"' ∷ t) ≡ some (s, t)
read_value-escape_syslog [] t = unfold escape_syslog in read_value_quote t
read_value-escape_syslog (c ∷ s) t = elim (Bool-cases (is_special c)) [
  | inl h ↦
      ap (λ r. read_value (r ++ b'"' ∷ t)) (escape_syslog_cons s c ∙ branch c s h)
      ∙ read_value_special c (escape_syslog s ++ b'"' ∷ t) h
      ∙ ap (keep c) (read_value-escape_syslog s t)
      ∙ kept c s t
  | inr h ↦
      ap (λ r. read_value (r ++ b'"' ∷ t)) (escape_syslog_cons s c ∙ other c s h)
      ∙ read_value_plain c (escape_syslog s ++ b'"' ∷ t) h
      ∙ ap (keep c) (read_value-escape_syslog s t)
      ∙ kept c s t
]
  where
    branch :
        (c : ℕ) (s : Text)
        → is_special c ≡ true
        → (if is_special c then b'\\' ∷ c ∷ escape_syslog s else c ∷ escape_syslog s)
          ≡ b'\\' ∷ c ∷ escape_syslog s
    branch c s h = rw h refl

    other :
        (c : ℕ) (s : Text)
        → is_special c ≡ false
        → (if is_special c then b'\\' ∷ c ∷ escape_syslog s else c ∷ escape_syslog s)
          ≡ c ∷ escape_syslog s
    other c s h = rw h refl

    kept : (c : ℕ) (s t : Text) → keep c (some (s, t)) ≡ some (c ∷ s, t)
    kept c s t = refl
