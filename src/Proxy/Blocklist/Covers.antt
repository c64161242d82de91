-- ===== src/Proxy/Blocklist/Covers.antt =====
-- What the blocklist promises: an entry is the host's name, or `*.` and a domain that the host's
-- name lies below.
use mathlib.Core.List.{reverse-append, reverse-reverse, append_cancel_right}
use mathlib.Core.Bool.{false≢true}
use mathlib.Core.Path.{◌≡⟨◌⟩◌, ◌∎}
use i_filter_imitation.Common.{
  ℕ, List, [], ◌∷◌, ◌++◌, reverse, Bool, true, false, ◌||◌, none, some, Text, text_eq, text_eq_iff,
  to_lower, trim_space, split, cut_prefix, cut_prefix-append, cut_prefix_of_append, join,
  join-append, join-split, split-append, split-ne-nil, Any, ◌≡◌, ◌≢◌, ◌↔◌, ◌⊎◌, inl, inr, refl,
  arith, ap, sym, ◌∙◌, Option-cases,
}
use i_filter_imitation.Proxy.Blocklist.{
  Blocklist, TrieNode, star, wildcard, add_path, add_line, add_entry, add_entries, new_blocklist,
  empty_node, walk, wildcard_blocked, mem, host_name, is_blocked,
}
use i_filter_imitation.Proxy.Blocklist.Walk.{terminal_at, terminal_at-add_path, walk-Hit, Hit-walk}

abbrev dot : ℕ
dot = b'.'

-- `line` is an entry in lower case and without white space around it, `h` a host name.
pub data Covers (line h : Text) : Type 0 where
  same : line ≢ [] → line ≡ h → Covers line h
  below : (base sub : Text) → line ≡ wildcard ++ base → h ≡ sub ++ dot ∷ base → Covers line h

-- A host name that lies below `base` has the labels of `base` last, and one or more before them.
below-labels :
    (base sub : Text)
    → reverse (split (sub ++ dot ∷ base) dot) ≡ reverse (split base dot) ++ reverse (split sub dot)
below-labels base sub =
    ap reverse (split-append sub base dot) ∙ reverse-append (split sub dot) (split base dot)

reverse-ne-nil : (ps : List Text) → ps ≢ [] → reverse ps ≢ []
reverse-ne-nil ps h e = h (sym (reverse-reverse ps) ∙ ap reverse e)

labels-below :
    (h base : Text) (rest : List Text)
    → rest ≢ []
    → reverse (split h dot) ≡ reverse (split base dot) ++ rest
    → h ≡ join (reverse rest) dot ++ dot ∷ base
labels-below h base rest some_rest e =
    h
    ≡⟨ sym (join-split h dot) ⟩ join (split h dot) dot
    ≡⟨ ap (λ ps. join ps dot) labels ⟩ join (reverse rest ++ split base dot) dot
    ≡⟨ join-append _ _ dot (reverse-ne-nil rest some_rest) (split-ne-nil base dot) ⟩
      join (reverse rest) dot ++ dot ∷ join (split base dot) dot
    ≡⟨ ap (λ t. join (reverse rest) dot ++ dot ∷ t) (join-split base dot) ⟩
      join (reverse rest) dot ++ dot ∷ base ∎
  where
    labels : split h dot ≡ reverse rest ++ split base dot
    labels =
        sym (reverse-reverse (split h dot))
        ∙ ap reverse e
        ∙ reverse-append (reverse (split base dot)) rest
        ∙ ap (λ ps. reverse rest ++ ps) (reverse-reverse (split base dot))

abbrev path : Text → List Text
path base = reverse (split base dot) ++ star ∷ []

-- A wildcard for `base` blocks what lies below `base`, and whatever was blocked before.
walk-add_path :
    (base h : Text) (n : TrieNode)
    → (walk (reverse (split h dot)) (add_path (path base) n) ≡ true)
      ↔ (((sub : Text) × (h ≡ sub ++ dot ∷ base)) ⊎ (walk (reverse (split h dot)) n ≡ true))
walk-add_path base h n = (found, blocks)
  where
    new :
        (ls rest : List Text)
        → rest ≢ []
        → reverse (split h dot) ≡ ls ++ rest
        → (ls ++ star ∷ [] ≡ path base)
        → (sub : Text) × (h ≡ sub ++ dot ∷ base)
    new ls rest hr e p = (
      join (reverse rest) dot,
      labels-below h base rest hr
          (e ∙ ap (λ l. l ++ rest) (append_cancel_right ls (reverse (split base dot)) _ p)),
    )

    old :
        (ls rest : List Text)
        → ls ≢ []
        → rest ≢ []
        → reverse (split h dot) ≡ ls ++ rest
        → (ls ++ star ∷ [] ≡ path base) ⊎ (terminal_at (ls ++ star ∷ []) n ≡ true)
        → ((sub : Text) × (h ≡ sub ++ dot ∷ base)) ⊎ (walk (reverse (split h dot)) n ≡ true)
    old ls rest hl hr e (inl p) = inl (new ls rest hr e p)
    old ls rest hl hr e (inr t) = inr (rw e (Hit-walk ls rest n hl hr t))

    found :
        walk (reverse (split h dot)) (add_path (path base) n) ≡ true
        → ((sub : Text) × (h ≡ sub ++ dot ∷ base)) ⊎ (walk (reverse (split h dot)) n ≡ true)
    found w =
        let hit = walk-Hit (reverse (split h dot)) (add_path (path base) n) w in
        old hit.base hit.rest hit.some_base hit.some_rest hit.joined
          ((terminal_at-add_path (path base) _ n).0 hit.ends)

    blocks :
        ((sub : Text) × (h ≡ sub ++ dot ∷ base)) ⊎ (walk (reverse (split h dot)) n ≡ true)
        → walk (reverse (split h dot)) (add_path (path base) n) ≡ true
    blocks (inl (sub, e)) =
        rw (e, below-labels base sub)
          (Hit-walk _ _ (add_path (path base) n) (reverse-ne-nil _ (split-ne-nil base dot))
            (reverse-ne-nil _ (split-ne-nil sub dot))
            ((terminal_at-add_path (path base) _ n).1 (inl refl)))
    blocks (inr w) =
        let hit = walk-Hit (reverse (split h dot)) n w in
        rw (hit.joined) (
          Hit-walk hit.base hit.rest (add_path (path base) n) hit.some_base hit.some_rest
            ((terminal_at-add_path (path base) _ n).1 (inr hit.ends)))

blocked : Blocklist → Text → Bool
blocked bl h = mem h bl.exact || wildcard_blocked bl h

Covers-exact :
    (c : ℕ) (line h : Text)
    → cut_prefix (c ∷ line) wildcard ≡ none
    → Covers (c ∷ line) h ↔ (text_eq (c ∷ line) h ≡ true)
Covers-exact c line h e = (to, λ q. same (λ z. cc) ((text_eq_iff (c ∷ line) h).0 q))
  where
    to : Covers (c ∷ line) h → text_eq (c ∷ line) h ≡ true
    to (same _ q) = (text_eq_iff (c ∷ line) h).1 q
    to (below base sub w _) =
        cc (ap (λ t. cut_prefix t wildcard) w, cut_prefix_of_append wildcard base)

Covers-below :
    (line h base : Text)
    → cut_prefix line wildcard ≡ some base
    → Covers line h ↔ ((sub : Text) × (h ≡ sub ++ dot ∷ base))
Covers-below line h base e =
    (to, λ (sub, q). below base sub (cut_prefix-append line wildcard base e) q)
  where
    to : Covers line h → (sub : Text) × (h ≡ sub ++ dot ∷ base)
    to (same _ q) = (star, sym q ∙ cut_prefix-append line wildcard base e)
    to (below base' sub w q) =
        (sub, cc (ap (λ t. cut_prefix t wildcard) w, cut_prefix_of_append wildcard base'))

blocked-add_exact :
    (bl : Blocklist) (c : ℕ) (line h : Text)
    → cut_prefix (c ∷ line) wildcard ≡ none
    → blocked (add_line bl (c ∷ line)) h ≡ (text_eq (c ∷ line) h || blocked bl h)
unfolding blocked add_line mem wildcard_blocked
blocked-add_exact bl c line h e = ground arith

blocked-add_wildcard :
    (bl : Blocklist) (c : ℕ) (line h base : Text)
    → cut_prefix (c ∷ line) wildcard ≡ some base
    → blocked (add_line bl (c ∷ line)) h
      ≡ (mem h bl.exact || walk (reverse (split h dot)) (add_path (path base) bl.trie))
unfolding blocked add_line wildcard_blocked
blocked-add_wildcard bl c line h base e = ground arith

or_iff : {P : Type 0} (a b : Bool) → P ↔ (a ≡ true) → ((a || b) ≡ true) ↔ (P ⊎ (b ≡ true))
or_iff true b (to, from) = (λ _. inl (from refl), λ _. refl)
or_iff false b (to, from) = (inr, λ s. elim s [ inl p ↦ absurd (false≢true (to p)) | inr e ↦ e ])

module _ {P Q : Type 0} where
  -- the same with an exact part in front
  or_iff_walk :
      (m a b : Bool)
      → P ↔ Q
      → (b ≡ true) ↔ (Q ⊎ (a ≡ true))
      → ((m || b) ≡ true) ↔ (P ⊎ ((m || a) ≡ true))
  or_iff_walk true a b pq e = (λ _. inr refl, λ _. refl)
  or_iff_walk false a b pq e = (
    λ h. elim (e.0 h) [ inl q ↦ inl (pq.1 q) | inr z ↦ inr z ],
    λ s. e.1 (elim s [ inl p ↦ inl (pq.0 p) | inr z ↦ inr z ]),
  )

module _ {P Q R S T : Type 0} where
  ⊎_trans : P ↔ (Q ⊎ R) → R ↔ (S ⊎ T) → P ↔ ((S ⊎ Q) ⊎ T)
  ⊎_trans a b = (
    λ p. elim (a.0 p) [
      | inl q ↦ inl (inr q)
      | inr r ↦ elim (b.0 r) [ inl s ↦ inl (inl s) | inr t ↦ inr t ]
    ],
    λ x. elim x [
      | inl (inl s) ↦ a.1 (inr (b.1 (inl s)))
      | inl (inr q) ↦ a.1 (inl q)
      | inr t ↦ a.1 (inr (b.1 (inr t)))
    ],
  )

-- An added line blocks what it covers, and whatever was blocked before.
blocked-add_line :
    (bl : Blocklist) (line h : Text)
    → (blocked (add_line bl line) h ≡ true) ↔ (Covers line h ⊎ (blocked bl h ≡ true))
blocked-add_line bl [] h = unfold add_line in (inr, none_covered)
  where
    none_covered : Covers [] h ⊎ (blocked bl h ≡ true) → blocked bl h ≡ true
    none_covered (inl (same z _)) = absurd (z refl)
    none_covered (inl (below _ _ w _)) = cc
    none_covered (inr b) = b
blocked-add_line bl (c ∷ line) h = elim (Option-cases (cut_prefix (c ∷ line) wildcard)) [
  | inl e ↦
      rw (blocked-add_exact bl c line h e)
        (or_iff (text_eq (c ∷ line) h) (blocked bl h) (Covers-exact c line h e))
  | inr (base, e) ↦ rw (blocked-add_wildcard bl c line h base e) (
      unfold blocked wildcard_blocked in
      or_iff_walk (mem h bl.exact) (walk (reverse (split h dot)) bl.trie) _
        (Covers-below (c ∷ line) h base e) (walk-add_path base h bl.trie))
]

blocked-add_entries :
    (ds : List Text) (bl : Blocklist) (h : Text)
    → (blocked (add_entries bl ds) h ≡ true)
      ↔ (Any (λ d. Covers (to_lower (trim_space d)) h) ds ⊎ (blocked bl h ≡ true))
unfolding add_entries
blocked-add_entries [] bl h = (inr, λ s. elim s [ inl z ↦ absurd z | inr e ↦ e ])
blocked-add_entries (d ∷ ds) bl h =
    ⊎_trans (blocked-add_entries ds (add_entry bl d) h)
      (unfold add_entry in blocked-add_line bl (to_lower (trim_space d)) h)

walk-empty_node : (ls : List Text) → walk ls empty_node ≡ false
unfolding walk empty_node
walk-empty_node [] = refl
walk-empty_node (l ∷ ls) = refl

-- A host is blocked exactly when some entry, in lower case and trimmed, covers its name: the name
-- is the entry itself, or the entry is `*.` and a domain that the name lies strictly below.
pub is_blocked_iff :
    (ds : List Text) (host : Text)
    → (is_blocked (some (new_blocklist ds)) host ≡ true)
      ↔ Any (λ d. Covers (to_lower (trim_space d)) (host_name host)) ds
unfolding is_blocked new_blocklist blocked mem wildcard_blocked
is_blocked_iff ds host = (
  λ b. elim ((built).0 b) [ inl a ↦ a | inr e ↦ absurd (false≢true (sym nothing ∙ e)) ],
  λ a. built.1 (inl a),
)
  where
    start : Blocklist
    start = record { exact = []; trie = empty_node }

    built : (blocked (add_entries start ds) (host_name host) ≡ true) ↔ (
        Any (λ d. Covers (to_lower (trim_space d)) (host_name host)) ds
        ⊎ (blocked start (host_name host) ≡ true))
    built = blocked-add_entries ds start (host_name host)

    nothing : blocked start (host_name host) ≡ false
    nothing = walk-empty_node (reverse (split (host_name host) dot))
