-- ===== src/Api/Domain/Labels.antt =====
-- What the parts of the expression match.
use mathlib.Core.List.{reverse-append}
use i_filter_imitation.Common.{
  ℕ, ◌≤◌, [], ◌∷◌, ◌++◌, Bool, true, false, Text, length, All, All-append, All-init, ◌≡◌, ◌≢◌, ◌↔◌,
  inl, inr, refl, sym, ap, ◌∙◌, subst, arith, has_byte, reverse,
}
use i_filter_imitation.Common.Regex.{byte, Star, stop, more, Matches}
use i_filter_imitation.Api.Domain.{alnum, alnum_dash, label_re, top_re}

abbrev pub dash : ℕ
dash = b'-'

abbrev pub dot : ℕ
dot = b'.'

-- A label has letters, digits and dashes, at least one of them, and no dash at either end.
pub record IsLabel (l : Text) : Type 0 where
  pub bytes : All (λ c. alnum_dash c ≡ true) l
  pub some_byte : l ≢ []
  pub first : (rest : Text) → l ≢ dash ∷ rest
  pub last : (rest : Text) → l ≢ rest ++ dash ∷ []

-- The last name has two or more letters and digits.
pub record IsTop (l : Text) : Type 0 where
  pub bytes : All (λ c. alnum c ≡ true) l
  pub two : 2 ≤ length l

module _ (p : ℕ → Bool) where
  abbrev Is : ℕ → Type 0
  Is c = p c ≡ true

  Star-All : {u : Text} → Star (Matches (byte p)) u → All Is u
  Star-All {u} (stop e) = subst (All Is) (sym e) tt
  Star-All {u} (more s t e (c, h, f) m) =
      subst (All Is) (sym (e ∙ ap (λ x. x ++ t) f)) (h, Star-All m)

  All-Star : (u : Text) → All Is u → Star (Matches (byte p)) u
  All-Star [] a = stop refl
  All-Star (c ∷ u) (h, a) = more (c ∷ []) u refl (c, h, refl) (All-Star u a)

-- A text that is not empty has a last byte.
pub last_byte : (c : ℕ) (s : Text) → (t : Text) × (d : ℕ) × (c ∷ s ≡ t ++ d ∷ [])
last_byte c [] = ([], c, refl)
last_byte c (e ∷ s) = let (t, d, h) = last_byte e s in (c ∷ t, d, ap (◌∷◌ c) h)

same_last : (s t : Text) (c d : ℕ) → s ++ c ∷ [] ≡ t ++ d ∷ [] → c ≡ d
same_last s t c d e =
    let g : c ∷ reverse s ≡ d ∷ reverse t =
      sym (reverse-append s (c ∷ [])) ∙ ap reverse e ∙ reverse-append t (d ∷ []) in
    cc

abbrev Inner : ℕ → Type 0
Inner c = alnum_dash c ≡ true

no_dash : (c : ℕ) → alnum c ≡ true → c ≢ dash
no_dash c h e = ground (arith, h, e)

one_byte : (c : ℕ) → alnum c ≡ true → IsLabel (c ∷ [])
one_byte c h = record {
  bytes = (ground (arith, h), tt);
  some_byte = λ e. cc;
  first = λ rest e. let k : c ≡ dash = cc in no_dash c h k;
  last = λ rest e. no_dash c h (same_last [] rest c dash e);
}

long-IsLabel :
    (c d : ℕ) (w : Text)
    → alnum c ≡ true
    → alnum d ≡ true
    → All Inner w
    → IsLabel (c ∷ (w ++ d ∷ []))
long-IsLabel c d w h k a = record {
  bytes = (ground (arith, h), All-append Inner w (d ∷ []) a (ground (arith, k), tt));
  some_byte = λ e. cc;
  first = λ rest e. let k : c ≡ dash = cc in no_dash c h k;
  last = λ rest e. no_dash d k (same_last (c ∷ w) rest d dash e);
}

matched-IsLabel : (l : Text) → Matches label_re l → IsLabel l
matched-IsLabel l (x, t, e, (c, h, f), inr z) =
    subst IsLabel (sym (rw (e, f, z) refl)) (one_byte c h)
matched-IsLabel l (x, t, e, (c, h, f), inl (w, v, g, m, (d, k, q))) =
    subst IsLabel (sym (rw (e, f, g, q) refl)) (long-IsLabel c d w h k (Star-All alnum_dash m))

-- A byte of a label is a letter or a digit unless it is a dash.
not_dash : (c : ℕ) → Inner c → c ≢ dash → alnum c ≡ true
not_dash c h n = ground (arith, h, n)

IsLabel-label : (l : Text) → IsLabel l → Matches label_re l
IsLabel-label [] i = absurd (i.some_byte refl)
IsLabel-label (c ∷ []) i =
    let h : alnum c ≡ true = not_dash c i.bytes.0 (λ e. i.first [] (ap (λ d. d ∷ []) e)) in
    (c ∷ [], [], refl, (c, h, refl), inr refl)
IsLabel-label (c ∷ b ∷ l) i =
    let (w, d, e) = last_byte b l in
    let (inner, (at_end, _)) = All-init Inner w (d ∷ []) (subst (All Inner) e i.bytes.1) in
    let h : alnum c ≡ true = not_dash c i.bytes.0 (λ q. i.first (b ∷ l) (ap (λ k. k ∷ b ∷ l) q)) in
    let k : alnum d ≡ true =
      not_dash d at_end (λ q. i.last (c ∷ w) (ap (◌∷◌ c) (e ∙ ap (λ k. w ++ k ∷ []) q))) in
    (
      c ∷ [],
      b ∷ l,
      refl,
      (c, h, refl),
      inl (w, d ∷ [], e, All-Star alnum_dash w inner, (d, k, refl)),
    )

pub IsLabel-iff : (l : Text) → Matches label_re l ↔ IsLabel l
IsLabel-iff l = (matched-IsLabel l, IsLabel-label l)

matched-IsTop : (l : Text) → Matches top_re l → IsTop l
matched-IsTop l (x, t, e, (c, h, f), (y, u, g, (d, k, q), m)) =
    let i : IsTop (c ∷ d ∷ u) = record { bytes = (h, (k, Star-All alnum m)); two = omega arith } in
    subst IsTop (sym (rw (e, f, g, q) refl)) i

IsTop-top : (l : Text) → IsTop l → Matches top_re l
IsTop-top [] i = absurd (omega (arith, i.two))
IsTop-top (c ∷ []) i = absurd (omega (arith, i.two))
IsTop-top (c ∷ d ∷ l) i =
    let (h, (k, a)) = i.bytes in
    (c ∷ [], d ∷ l, refl, (c, h, refl), (d ∷ [], l, refl, (d, k, refl), All-Star alnum l a))

pub IsTop-iff : (l : Text) → Matches top_re l ↔ IsTop l
IsTop-iff l = (matched-IsTop l, IsTop-top l)

pub bytes-no_dot : (l : Text) → All (λ c. alnum_dash c ≡ true) l → has_byte l dot ≡ false
unfolding has_byte
bytes-no_dot [] a = refl
bytes-no_dot (c ∷ l) (h, a) = ground (arith, h, bytes-no_dot l a)
