-- ===== src/Api/Blocklist/Members.antt =====
-- The domains of the enabled entries of a table, and what each change of the table does to them.
use i_filter_imitation.Common.{
  ap₂, List, [], ◌∷◌, ◌++◌, Bool, true, false, ◌&&◌, ◌||◌, none, some, if◌then◌else◌, Text, text_eq,
  text_eq→eq, ◌≡◌, refl, sym, ap, arith, subst, Bool-cases, inl, inr,
}
use i_filter_imitation.Api.Blocklist.{
  Entry, UpdateRequest, lookup, is_enabled, update_entries, updated, coalesce, delete_entries,
}

pub is_enabled-append :
    (d : Text) (es : List Entry) (e : Entry)
    → is_enabled d (es ++ e ∷ []) ≡ (is_enabled d es || (text_eq d e.domain && e.enabled))
unfolding is_enabled
is_enabled-append d [] e = ground arith
is_enabled-append d (x ∷ es) e = ground (arith, is_enabled-append d es e)

-- A name that is not `domain` is not the name of an entry of it.
other_name :
    (d domain k : Text) → text_eq d domain ≡ false → text_eq domain k ≡ true → text_eq d k ≡ false
other_name d domain k h e = subst (λ x. text_eq d x ≡ false) (text_eq→eq domain k e) h

deleted_own :
    (domain : Text) (es : List Entry) → is_enabled domain (delete_entries domain es) ≡ false
unfolding is_enabled delete_entries
deleted_own domain [] = refl
deleted_own domain (e ∷ es) = elim (Bool-cases (text_eq domain e.domain)) [
  | inl h ↦ rw h (deleted_own domain es)
  | inr h ↦ rw (h, h) (deleted_own domain es)
]

deleted_other :
    (d domain : Text) (es : List Entry)
    → text_eq d domain ≡ false
    → is_enabled d (delete_entries domain es) ≡ is_enabled d es
unfolding is_enabled delete_entries
deleted_other d domain [] g = refl
deleted_other d domain (e ∷ es) g = elim (Bool-cases (text_eq domain e.domain)) [
  | inl h ↦ rw (h, other_name d domain e.domain g h) (deleted_other d domain es g)
  | inr h ↦ rw h (ap (λ b. text_eq d e.domain && e.enabled || b) (deleted_other d domain es g))
]

-- A request that says nothing of `enabled` changes no membership.
pub updated_comment :
    (d domain : Text) (req : UpdateRequest) (es : List Entry)
    → req.enabled ≡ none
    → is_enabled d (update_entries domain req es) ≡ is_enabled d es
unfolding is_enabled update_entries
updated_comment d domain req [] h = refl
updated_comment d domain req (e ∷ es) h =
    ap₂ (λ x y. x || y) (same (text_eq domain e.domain)) (updated_comment d domain req es h)
  where
    shows : Entry → Bool
    shows x = text_eq d x.domain && x.enabled

    same : (b : Bool) → shows (if b then updated req e else e) ≡ shows e
    same true = ap (λ o. text_eq d e.domain && coalesce o e.enabled) h
    same false = refl

updated_other :
    (d domain : Text) (req : UpdateRequest) (es : List Entry)
    → text_eq d domain ≡ false
    → is_enabled d (update_entries domain req es) ≡ is_enabled d es
unfolding is_enabled update_entries
updated_other d domain req [] g = refl
updated_other d domain req (e ∷ es) g = elim (Bool-cases (text_eq domain e.domain)) [
  | inl h ↦ rw (h, other_name d domain e.domain g h) (updated_other d domain req es g)
  | inr h ↦ rw h (ap (λ b. text_eq d e.domain && e.enabled || b) (updated_other d domain req es g))
]

updated_disabled :
    (domain : Text) (req : UpdateRequest) (es : List Entry)
    → req.enabled ≡ some false
    → is_enabled domain (update_entries domain req es) ≡ false
unfolding is_enabled update_entries
updated_disabled domain req [] h = refl
updated_disabled domain req (e ∷ es) h = elim (Bool-cases (text_eq domain e.domain)) [
  | inl q ↦ rw (q, ap (λ o. coalesce o e.enabled) h, q) (updated_disabled domain req es h)
  | inr q ↦ rw (q, q) (updated_disabled domain req es h)
]

updated_enabled :
    (domain : Text) (req : UpdateRequest) (es : List Entry) (e : Entry)
    → req.enabled ≡ some true
    → lookup domain es ≡ some e
    → is_enabled domain (update_entries domain req es) ≡ true
unfolding is_enabled update_entries lookup
updated_enabled domain req [] e h f = absurd (ground (arith, f))
updated_enabled domain req (x ∷ es) e h f = elim (Bool-cases (text_eq domain x.domain)) [
  | inl q ↦ rw (q, ap (λ o. coalesce o x.enabled) h, q) refl
  | inr q ↦ rw (q, q) (updated_enabled domain req es e h (ground (arith, f, q)))
]

pub enabled_set :
    (d domain : Text) (b : Bool) (req : UpdateRequest) (es : List Entry) (e : Entry)
    → req.enabled ≡ some b
    → lookup domain es ≡ some e
    → (if text_eq d domain then b else is_enabled d es)
      ≡ is_enabled d (update_entries domain req es)
enabled_set d domain b req es e h f = elim (Bool-cases (text_eq d domain)) [
  | inl q ↦ rw (q, text_eq→eq d domain q) (sym (own b h))
  | inr q ↦ rw q (sym (updated_other d domain req es q))
]
  where
    own : (c : Bool) → req.enabled ≡ some c → is_enabled domain (update_entries domain req es) ≡ c
    own true g = updated_enabled domain req es e g f
    own false g = updated_disabled domain req es g

pub enabled_deleted :
    (d domain : Text) (es : List Entry)
    → (if text_eq d domain then false else is_enabled d es)
      ≡ is_enabled d (delete_entries domain es)
enabled_deleted d domain es = elim (Bool-cases (text_eq d domain)) [
  | inl q ↦ rw (q, text_eq→eq d domain q) (sym (deleted_own domain es))
  | inr q ↦ rw q (sym (deleted_other d domain es q))
]

pub enabled_added :
    (d : Text) (es : List Entry) (e : Entry)
    → e.enabled ≡ true
    → (if text_eq d e.domain then true else is_enabled d es) ≡ is_enabled d (es ++ e ∷ [])
enabled_added d es e h =
    rw (is_enabled-append d es e, h) (both (text_eq d e.domain) (is_enabled d es))
  where
    both : (b c : Bool) → (if b then true else c) ≡ (c || (b && true))
    both b c = ground arith
