-- ===== src/Api/Domain/Grammar.antt =====
-- The domains that the expression matches, by their labels.
use i_filter_imitation.Common.{
  List, [], ◌∷◌, ◌++◌, true, ==_iff, ==_refl, Text, codes, All, ◌≡◌, ◌≢◌, ◌↔◌, inl, inr, refl, sym,
  ap, ◌∙◌, subst, split, join, join-append, join-split, split-append, split_of_lacks, append_assoc,
  arith,
}
use i_filter_imitation.Common.Regex.{seq, Star, stop, more, Matches}
use i_filter_imitation.Common.Regex.Laws.{match_string_iff}
use i_filter_imitation.Api.Domain.{
  alnum, alnum_dash, lit, label_re, name_re, domain_re, is_valid_domain,
}
use i_filter_imitation.Api.Domain.Labels.{IsLabel, IsTop, IsLabel-iff, IsTop-iff, dot, bytes-no_dot}

-- One or more labels and a last name, with a dot between any two.
pub record IsName (h : Text) : Type 0 where
  pub labels : List Text
  pub top : Text
  pub parts : split h dot ≡ labels ++ top ∷ []
  pub some_label : labels ≢ []
  pub all_labels : All IsLabel labels
  pub is_top : IsTop top

-- A name, or `*.` and a name.
pub data IsDomain (d : Text) : Type 0 where
  plain : IsName d → IsDomain d
  wildcard : (base : Text) → d ≡ codes "*." ++ base → IsName base → IsDomain d

label-split : (l t : Text) → IsLabel l → split (l ++ dot ∷ t) dot ≡ l ∷ split t dot
label-split l t i =
    split-append l t dot
    ∙ ap (λ ps. ps ++ split t dot) (split_of_lacks l dot (bytes-no_dot l i.bytes))

top-split : (l : Text) → IsTop l → split l dot ≡ l ∷ []
top-split l i = split_of_lacks l dot (bytes-no_dot l (inner l i.bytes))
  where
    inner : (s : Text) → All (λ c. alnum c ≡ true) s → All (λ c. alnum_dash c ≡ true) s
    inner [] a = tt
    inner (c ∷ s) (h, a) = (ground (arith, h), inner s a)

-- a label and the dot behind it
abbrev Dotted : Text → Type 0
Dotted u = Matches (seq label_re (lit b'.')) u

dotted : (u : Text) → Dotted u → (l : Text) × (u ≡ l ++ dot ∷ []) × IsLabel l
dotted u (l, t, e, m, (c, h, f)) =
    let k : c ≡ dot = (==_iff c dot).0 h in (l, rw (e, f, k) refl, (IsLabel-iff l).0 m)

Dotted-label : (l : Text) → IsLabel l → Dotted (l ++ dot ∷ [])
Dotted-label l i = (l, dot ∷ [], refl, (IsLabel-iff l).1 i, (dot, ==_refl dot, refl))

behind_dot : (l t top : Text) → ((l ++ dot ∷ []) ++ t) ++ top ≡ l ++ dot ∷ (t ++ top)
behind_dot l t top = append_assoc (l ++ dot ∷ []) t top ∙ append_assoc l (dot ∷ []) (t ++ top)

-- What a text of labels and dots is split into, with a last name behind it.
Star-split :
    {u : Text}
    → Star Dotted u
    → (top : Text) → IsTop top
    → (ls : List Text) × (split (u ++ top) dot ≡ ls ++ top ∷ []) × All IsLabel ls
Star-split (stop e) top i = ([], rw e (top-split top i), tt)
Star-split {u} (more s t e d m) top i =
    let (l, f, il) = dotted s d in
    let (ls, g, a) = Star-split m top i in
    let whole : u ++ top ≡ l ++ dot ∷ (t ++ top) =
      ap (λ x. x ++ top) (e ∙ ap (λ x. x ++ t) f) ∙ behind_dot l t top in
    (l ∷ ls, ap (λ x. split x dot) whole ∙ label-split l (t ++ top) il ∙ ap (◌∷◌ l) g, (il, a))

no_end : (ls : List Text) (top : Text) → ls ++ top ∷ [] ≢ []
no_end [] top e = cc
no_end (l ∷ ls) top e = cc

Star-join :
    (ls : List Text) (top : Text)
    → All IsLabel ls
    → (u : Text) × (join (ls ++ top ∷ []) dot ≡ u ++ top) × Star Dotted u
unfolding join
Star-join [] top a = ([], refl, stop refl)
Star-join (l ∷ ls) top (i, a) =
    let (u, e, m) = Star-join ls top a in
    let front : join (l ∷ (ls ++ top ∷ [])) dot ≡ l ++ dot ∷ join (ls ++ top ∷ []) dot =
      join-append (l ∷ []) (ls ++ top ∷ []) dot (λ q. cc) (no_end ls top) in
    (
      (l ++ dot ∷ []) ++ u,
      front ∙ ap (λ x. l ++ dot ∷ x) e ∙ sym (behind_dot l u top),
      more (l ++ dot ∷ []) u refl (Dotted-label l i) m,
    )

matched-IsName : (h : Text) → Matches name_re h → IsName h
matched-IsName h (u, top, e, (s, t, f, d, m), mt) =
    let i = (IsTop-iff top).0 mt in
    let (l, g, il) = dotted s d in
    let (ls, k, a) = Star-split m top i in
    let whole : h ≡ l ++ dot ∷ (t ++ top) =
      e ∙ ap (λ x. x ++ top) (f ∙ ap (λ x. x ++ t) g) ∙ behind_dot l t top in
    record {
      labels = l ∷ ls;
      top = top;
      parts = ap (λ x. split x dot) whole ∙ label-split l (t ++ top) il ∙ ap (◌∷◌ l) k;
      some_label = λ q. cc;
      all_labels = (il, a);
      is_top = i;
    }

plus_of_labels :
    (h : Text) (ls : List Text) (top : Text)
    → ls ≢ []
    → All IsLabel ls
    → IsTop top
    → h ≡ join (ls ++ top ∷ []) dot
    → Matches name_re h
unfolding join
plus_of_labels h [] top n a i e = absurd (n refl)
plus_of_labels h (l ∷ ls) top n (il, a) i e =
    let (u, f, m) = Star-join ls top a in
    let front : join (l ∷ (ls ++ top ∷ [])) dot ≡ l ++ dot ∷ join (ls ++ top ∷ []) dot =
      join-append (l ∷ []) (ls ++ top ∷ []) dot (λ q. cc) (no_end ls top) in
    (
      (l ++ dot ∷ []) ++ u,
      top,
      e ∙ front ∙ ap (λ x. l ++ dot ∷ x) f ∙ sym (behind_dot l u top),
      (l ++ dot ∷ [], u, refl, Dotted-label l il, m),
      (IsTop-iff top).1 i,
    )

IsName-name : (h : Text) → IsName h → Matches name_re h
IsName-name h i =
    plus_of_labels h i.labels i.top i.some_label i.all_labels i.is_top
      (sym (join-split h dot) ∙ ap (λ ps. join ps dot) i.parts)

domain-IsDomain : (d : Text) → Matches domain_re d → IsDomain d
domain-IsDomain d (s, t, e, inl (x, y, f, (a, ha, fa), (b, hb, fb)), m) =
    let ka : a ≡ b'*' = (==_iff a b'*').0 ha in
    let kb : b ≡ dot = (==_iff b dot).0 hb in
    wildcard t (rw (e, f, fa, fb, ka, kb) refl) (matched-IsName t m)
domain-IsDomain d (s, t, e, inr z, m) =
    let whole : t ≡ d = sym (e ∙ ap (λ x. x ++ t) z) in
    plain (matched-IsName d (subst (Matches name_re) whole m))

IsDomain-domain : (d : Text) → IsDomain d → Matches domain_re d
IsDomain-domain d (plain i) = ([], d, refl, inr refl, IsName-name d i)
IsDomain-domain d (wildcard base e i) =
    let star_dot : Matches (seq (lit b'*') (lit b'.')) (codes "*.") =
      (b'*' ∷ [], b'.' ∷ [], refl, (b'*', refl, refl), (b'.', refl, refl)) in
    (codes "*.", base, e, inl star_dot, IsName-name base i)

-- A domain may be added if and only if it is a plain name or `*.` and a name, where a name has two or
-- more parts between dots: a last one of two or more letters and digits, and before it labels of
-- letters, digits and dashes with no dash at either end. A letter is a small one.
pub is_valid_domain_iff : (d : Text) → (is_valid_domain d ≡ true) ↔ IsDomain d
unfolding is_valid_domain
is_valid_domain_iff d =
    let m = match_string_iff domain_re d in
    (λ h. domain-IsDomain d (m.0 h), λ i. m.1 (IsDomain-domain d i))
