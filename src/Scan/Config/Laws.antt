-- ===== src/Scan/Config/Laws.antt =====
-- Which content types are scanned.
use mathlib.Core.Bool.{false≢true}
use i_filter_imitation.Common.{
  List, [], ◌∷◌, ◌++◌, if◌then◌else◌, Bool, true, false, Text, text_eq_iff, trim_suffix, cut_prefix,
  cut_prefix-append, cut_prefix_of_append, has_prefix, Any, Option-cases, ◌≡◌, ◌↔◌, ◌⊎◌, inl, inr,
  refl, arith, Bool-cases,
}
use i_filter_imitation.Scan.Config.{
  MimeRule, ScanConfig, media_type, rule_matches, any_rule, is_scannable,
}

-- What a rule stands for: a type, or all types that begin with the pattern less its final `*`.
pub data Names (r : MimeRule) (t : Text) : Type 0 where
  exactly : r.is_prefix ≡ false → t ≡ r.pattern → Names r t
  begins :
      (rest : Text) → r.is_prefix ≡ true → t ≡ trim_suffix r.pattern (b'*' ∷ []) ++ rest → Names r t

has_prefix-true : (t p : Text) → has_prefix t p ≡ true → (rest : Text) × (t ≡ p ++ rest)
unfolding has_prefix
has_prefix-true t p h = elim (Option-cases (cut_prefix t p)) [
  | inl e ↦ cc
  | inr (rest, e) ↦ (rest, cut_prefix-append t p rest e)
]

has_prefix_append : (p rest : Text) → has_prefix (p ++ rest) p ≡ true
unfolding has_prefix
has_prefix_append p rest = ground (arith, cut_prefix_of_append p rest)

Names-rule_matches : (r : MimeRule) (t : Text) → Names r t → rule_matches r t ≡ true
unfolding rule_matches
Names-rule_matches r t (exactly e q) = ground (arith, text_eq_iff t r.pattern)
Names-rule_matches r t (begins rest e q) =
    rw (e, q) (has_prefix_append (trim_suffix r.pattern (b'*' ∷ [])) rest)

rule_matches-Names : (r : MimeRule) (t : Text) → rule_matches r t ≡ true → Names r t
rule_matches-Names r t h = elim (Bool-cases r.is_prefix) [
  | inl e ↦
      let (rest, q) =
        has_prefix-true t (trim_suffix r.pattern (b'*' ∷ []))
          (unfold rule_matches in ground arith) in
      begins rest e q
  | inr e ↦ exactly e (unfold rule_matches in ground (arith, text_eq_iff t r.pattern))
]

rule_step :
    {P R : Type 0} (e m rest : Bool)
    → (m ≡ true) ↔ P
    → (rest ≡ true) ↔ R
    → ((if e then if m then true else rest else rest) ≡ true) ↔ (((e ≡ true) × P) ⊎ R)
rule_step true true rest mp rr = (λ _. inl (refl, mp.0 refl), λ _. refl)
rule_step true false rest mp rr =
    (λ h. inr (rr.0 h), λ s. elim s [ inl p ↦ absurd (false≢true (mp.1 p.1)) | inr z ↦ rr.1 z ])
rule_step false m rest mp rr =
    (λ h. inr (rr.0 h), λ s. elim s [ inl p ↦ absurd (false≢true p.0) | inr z ↦ rr.1 z ])

any_rule_iff :
    (rs : List MimeRule) (t : Text)
    → (any_rule rs t ≡ true) ↔ Any (λ r. (r.enabled ≡ true) × Names r t) rs
unfolding any_rule
any_rule_iff [] t = (λ h. cc, λ h. absurd h)
any_rule_iff (r ∷ rs) t =
    rule_step r.enabled (rule_matches r t) (any_rule rs t)
      (rule_matches-Names r t, Names-rule_matches r t) (any_rule_iff rs t)

-- A response is scanned exactly when scanning is on and an enabled rule names its media type.
pub is_scannable_iff :
    (c : ScanConfig) (ct : Text)
    → (is_scannable c ct ≡ true)
      ↔ ((c.enabled ≡ true) × Any (λ r. (r.enabled ≡ true) × Names r (media_type ct)) c.rules)
unfolding is_scannable
is_scannable_iff c ct =
    let rules = any_rule_iff c.rules (media_type ct) in
    (λ h. ground (arith, rules.0), λ (on, some_rule). rw on (rules.1 some_rule))
