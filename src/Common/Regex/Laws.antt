-- ===== src/Common/Regex/Laws.antt =====
-- `match_string` decides `Matches`.
use Prim.Native.Nat.{ℕ}
use mathlib.Core.Path.{◌≡◌, refl, sym, ap, ◌∙◌, subst}
use mathlib.Core.Logic.{◌↔◌, inl, inr}
use mathlib.Core.Bool.{Bool, true, false, false≢true}
use mathlib.Core.List.{[], ◌∷◌, ◌++◌, append-nil}
use native.Mathlib.Omega.{arith}
use i_filter_imitation.Common.Lists.{All, All-append}
use i_filter_imitation.Common.Strings.{Text}
use i_filter_imitation.Common.Tests.{Bool-cases, if◌then◌else◌}
use i_filter_imitation.Common.Regex.{
  Regex, nothing, epsilon, byte, alt, seq, star, Star, stop, more, Matches, nullable, deriv,
  match_string,
}

nullable-Matches : (r : Regex) → nullable r ≡ true → Matches r []
unfolding nullable
nullable-Matches nothing h = absurd (false≢true h)
nullable-Matches epsilon h = refl
nullable-Matches (byte p) h = absurd (false≢true h)
nullable-Matches (alt r q) h = elim (Bool-cases (nullable r)) [
  | inl e ↦ inl (nullable-Matches r e)
  | inr e ↦ inr (nullable-Matches q (ground (arith, h, e)))
]
nullable-Matches (seq r q) h =
    ([], [], refl, nullable-Matches r (ground (arith, h)), nullable-Matches q (ground (arith, h)))
nullable-Matches (star r) h = stop refl

no_cons : (c : ℕ) (s t u : Text) → [] ≡ u → u ≡ (c ∷ s) ++ t → ⊥
no_cons c s t u e f = absurd (cc (e ∙ f))

Matches-nullable : (r : Regex) (u : Text) → u ≡ [] → Matches r u → nullable r ≡ true
unfolding nullable
Matches-nullable nothing u z m = absurd m
Matches-nullable epsilon u z m = refl
Matches-nullable (byte p) u z (c, _, e) = absurd (no_cons c [] [] u (sym z) e)
Matches-nullable (alt r q) u z (inl m) = let n = Matches-nullable r u z m in ground (arith, n)
Matches-nullable (alt r q) u z (inr m) = let n = Matches-nullable q u z m in ground (arith, n)
Matches-nullable (seq r q) u z ([], t, e, mr, mq) =
    let n = Matches-nullable r [] refl mr in
    let k = Matches-nullable q t (sym e ∙ z) mq in ground (arith, n, k)
Matches-nullable (seq r q) u z (c ∷ s, t, e, mr, mq) = absurd (no_cons c s t u (sym z) e)
Matches-nullable (star r) u z m = refl

byte-Matches :
    (p : ℕ → Bool) (c : ℕ) (s : Text) (b : Bool)
    → p c ≡ b
    → Matches (if b then epsilon else nothing) s
    → Matches (byte p) (c ∷ s)
byte-Matches p c s true e m = (c, e, ap (◌∷◌ c) m)
byte-Matches p c s false e m = absurd m

Matches-byte :
    (p : ℕ → Bool) (c d : ℕ) (s : Text)
    → p d ≡ true
    → c ≡ d
    → s ≡ []
    → Matches (if p c then epsilon else nothing) s
Matches-byte p c d s h e z = rw (e, h) z

-- What the derivative of `seq` is when its first part matches the empty text, and when it does not.
abbrev after : Bool → Regex → Regex → ℕ → Regex
after b r q c = if b then alt (seq (deriv r c) q) (deriv q c) else seq (deriv r c) q

after_first :
    (b : Bool) (r q : Regex) (c : ℕ) (s : Text)
    → Matches (seq (deriv r c) q) s
    → Matches (after b r q c) s
after_first true r q c s m = inl m
after_first false r q c s m = m

-- A non-empty text of `Star P` begins with a non-empty text of `P`.
first_more :
    {P : Text → Type 0} {u : Text} (c : ℕ) (s : Text)
    → Star P u
    → u ≡ c ∷ s
    → (x : Text) × (t : Text) × (s ≡ x ++ t) × P (c ∷ x) × Star P t
first_more c s (stop z) e = absurd (no_cons c s [] _ (sym z) (e ∙ sym (append-nil (c ∷ s))))
first_more c s (more [] t f px m) e = first_more c s m (sym f ∙ e)
first_more {P} {u} c s (more (d ∷ x) t f px m) e =
    let g : c ∷ s ≡ d ∷ (x ++ t) = sym e ∙ f in
    let hd : d ≡ c = cc in let tl : s ≡ x ++ t = cc in (x, t, tl, subst (λ k. P (k ∷ x)) hd px, m)

deriv-Matches : (r : Regex) (c : ℕ) (s : Text) → Matches (deriv r c) s → Matches r (c ∷ s)
unfolding deriv
deriv-Matches nothing c s m = m
deriv-Matches epsilon c s m = absurd m
deriv-Matches (byte p) c s m = byte-Matches p c s (p c) refl m
deriv-Matches (alt r q) c s (inl m) = inl (deriv-Matches r c s m)
deriv-Matches (alt r q) c s (inr m) = inr (deriv-Matches q c s m)
deriv-Matches (seq r q) c s m = elim (Bool-cases (nullable r)) [
  | inl n ↦ elim (subst (λ b. Matches (after b r q c) s) n m) [
    | inl (u, t, e, mr, mq) ↦ (c ∷ u, t, ap (◌∷◌ c) e, deriv-Matches r c u mr, mq)
    | inr mq ↦ ([], c ∷ s, refl, nullable-Matches r n, deriv-Matches q c s mq)
  ]
  | inr n ↦
      let (u, t, e, mr, mq) = subst (λ b. Matches (after b r q c) s) n m in
      (c ∷ u, t, ap (◌∷◌ c) e, deriv-Matches r c u mr, mq)
]
deriv-Matches (star r) c s (u, t, e, mr, ms) =
    more (c ∷ u) t (ap (◌∷◌ c) e) (deriv-Matches r c u mr) ms

Matches-deriv : (r : Regex) (c : ℕ) (s : Text) → Matches r (c ∷ s) → Matches (deriv r c) s
unfolding deriv
Matches-deriv nothing c s m = m
Matches-deriv epsilon c s m = absurd cc
Matches-deriv (byte p) c s (d, h, e) =
    let hd : c ≡ d = cc in let tl : s ≡ [] = cc in Matches-byte p c d s h hd tl
Matches-deriv (alt r q) c s (inl m) = inl (Matches-deriv r c s m)
Matches-deriv (alt r q) c s (inr m) = inr (Matches-deriv q c s m)
Matches-deriv (seq r q) c s ([], t, e, mr, mq) =
    rw (Matches-nullable r [] refl mr) (inr (Matches-deriv q c s (subst (Matches q) (sym e) mq)))
Matches-deriv (seq r q) c s (d ∷ u, t, e, mr, mq) =
    let hd : d ≡ c = cc in
    let tl : s ≡ u ++ t = cc in
    after_first (nullable r) r q c s
      (u, t, tl, Matches-deriv r c u (subst (λ k. Matches r (k ∷ u)) hd mr), mq)
Matches-deriv (star r) c s m =
    let (x, t, e, mr, ms) = first_more c s m refl in (x, t, e, Matches-deriv r c x mr, ms)

pub match_string_iff : (r : Regex) (s : Text) → (match_string r s ≡ true) ↔ Matches r s
unfolding match_string
match_string_iff r [] = (nullable-Matches r, Matches-nullable r [] refl)
match_string_iff r (c ∷ s) =
    let rest = match_string_iff (deriv r c) s in
    (λ h. deriv-Matches r c s (rest.0 h), λ m. rest.1 (Matches-deriv r c s m))

-- Every byte that the expression can read has the property.
abbrev pub Within : (ℕ → Type 0) → Regex → Type 0
Within P nothing = Unit
Within P epsilon = Unit
Within P (byte p) = (c : ℕ) → p c ≡ true → P c
Within P (alt r q) = Within P r × Within P q
Within P (seq r q) = Within P r × Within P q
Within P (star r) = Within P r

Star-All :
    (P : ℕ → Type 0) {Q : Text → Type 0} (each : (s : Text) → Q s → All P s) {u : Text}
    → Star Q u
    → All P u
Star-All P each (stop e) = subst (All P) (sym e) tt
Star-All P each (more s t e q m) =
    subst (All P) (sym e) (All-append P s t (each s q) (Star-All P each m))

pub Matches-All : (P : ℕ → Type 0) (r : Regex) (u : Text) → Within P r → Matches r u → All P u
Matches-All P nothing u w m = absurd m
Matches-All P epsilon u w e = subst (All P) (sym e) tt
Matches-All P (byte p) u w (c, h, e) = subst (All P) (sym e) (w c h, tt)
Matches-All P (alt r q) u (wr, wq) (inl m) = Matches-All P r u wr m
Matches-All P (alt r q) u (wr, wq) (inr m) = Matches-All P q u wq m
Matches-All P (seq r q) u (wr, wq) (s, t, e, mr, mq) =
    subst (All P) (sym e) (All-append P s t (Matches-All P r s wr mr) (Matches-All P q t wq mq))
Matches-All P (star r) u w m = Star-All P (λ s. Matches-All P r s w) m
