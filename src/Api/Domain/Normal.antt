-- ===== src/Api/Domain/Normal.antt =====
-- A domain that may be added stays as it is when the proxy reads it.
use mathlib.Core.List.{reverse-reverse}
use i_filter_imitation.Common.{
  ℕ, [], ◌∷◌, true, false, reverse, Text, All, All-reverse, ◌≡◌, refl, ap, ap₂, ◌∙◌, arith, ◌==◌,
  lower, to_lower, is_space, drop_while, trim, trim_space,
}
use i_filter_imitation.Common.Regex.Laws.{match_string_iff, Matches-All, Within}
use i_filter_imitation.Api.Domain.{alnum, alnum_dash, label_re, domain_re, is_valid_domain}

-- a byte that is neither a capital letter nor white space
abbrev Settled : ℕ → Type 0
Settled c = (lower c ≡ c) × (is_space c ≡ false)

alnum-Settled : (c : ℕ) → alnum c ≡ true → Settled c
unfolding lower is_space
alnum-Settled c h = ground (arith, h)

alnum_dash-Settled : (c : ℕ) → alnum_dash c ≡ true → Settled c
unfolding lower is_space
alnum_dash-Settled c h = ground (arith, h)

star-Settled : (c : ℕ) → (c == b'*') ≡ true → Settled c
unfolding lower is_space
star-Settled c h = ground (arith, h)

dot-Settled : (c : ℕ) → (c == b'.') ≡ true → Settled c
unfolding lower is_space
dot-Settled c h = ground (arith, h)

Settled-to_lower : (s : Text) → All Settled s → to_lower s ≡ s
unfolding to_lower
Settled-to_lower [] a = refl
Settled-to_lower (c ∷ s) ((l, _), a) = ap₂ ◌∷◌ l (Settled-to_lower s a)

Settled-drop_while : (s : Text) → All Settled s → drop_while is_space s ≡ s
unfolding drop_while
Settled-drop_while [] a = refl
Settled-drop_while (c ∷ s) ((_, n), a) = rw n refl

Settled-trim_space : (s : Text) → All Settled s → trim_space s ≡ s
unfolding trim_space trim
Settled-trim_space s a =
    ap (λ x. reverse (drop_while is_space (reverse x))) (Settled-drop_while s a)
    ∙ ap reverse (Settled-drop_while (reverse s) (All-reverse Settled s a))
    ∙ reverse-reverse s

domain-Settled : (d : Text) → is_valid_domain d ≡ true → All Settled d
unfolding is_valid_domain
domain-Settled d h =
    let label : Within Settled label_re =
      (alnum-Settled, ((alnum_dash-Settled, alnum-Settled), tt)) in
    Matches-All Settled domain_re d
      (
        ((star-Settled, dot-Settled), tt),
        (
          ((label, dot-Settled), (label, dot-Settled)),
          (alnum-Settled, (alnum-Settled, alnum-Settled)),
        ),
      )
      ((match_string_iff domain_re d).0 h)

-- A domain that may be added is in lower case and has no white space around it.
pub to_lower-trim_space : (d : Text) → is_valid_domain d ≡ true → to_lower (trim_space d) ≡ d
to_lower-trim_space d h =
    let a = domain-Settled d h in ap to_lower (Settled-trim_space d a) ∙ Settled-to_lower d a
