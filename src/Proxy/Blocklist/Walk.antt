-- ===== src/Proxy/Blocklist/Walk.antt =====
-- The trie seen as the set of its terminal paths, and what `walk` finds in it.
use mathlib.Core.Bool.{false≢true}
use i_filter_imitation.Common.{
  List, [], ◌∷◌, ◌++◌, Bool, true, false, ◌&&◌, none, some, ltb, length, if◌then◌else◌, Text,
  text_eq, text_eq_iff, ◌≡◌, ◌≢◌, ◌↔◌, ◌⊎◌, inl, inr, refl, arith, ap, sym, ◌∙◌, Bool-cases,
  Option-cases,
}
use i_filter_imitation.Proxy.Blocklist.{
  TrieNode, Children, node, nil, child, lookup_child, set_child, get_or_create, empty_node, star,
  add_path, has_sentinel, child_of, walk,
}

-- Whether the path leads to a terminal node.
pub terminal_at : List Text → TrieNode → Bool
unfolding child_of
terminal_at [] (node cs t) = t
terminal_at (l ∷ ls) n = elim (child_of n l) [ none ↦ false | some c ↦ terminal_at ls c ]

lookup_child-set_child :
    (k l : Text) (m : TrieNode) (cs : Children)
    → lookup_child k (set_child l m cs) ≡ (if text_eq l k then some m else lookup_child k cs)
unfolding lookup_child set_child
lookup_child-set_child k l m nil = refl
lookup_child-set_child k l m (child j n cs) =
    ground
      (arith, text_eq_iff j l, text_eq_iff j k, text_eq_iff l k, lookup_child-set_child k l m cs)

terminal_at-empty_node : (q : List Text) → terminal_at q empty_node ≡ false
unfolding terminal_at empty_node lookup_child
terminal_at-empty_node [] = refl
terminal_at-empty_node (l ∷ q) = refl

terminal_at-get_or_create :
    (k : Text) (ks : List Text) (cs : Children) (t : Bool)
    → terminal_at ks (get_or_create k cs) ≡ terminal_at (k ∷ ks) (node cs t)
unfolding terminal_at get_or_create
terminal_at-get_or_create k ks cs t = ground (arith, terminal_at-empty_node ks)

-- Inserting a path makes it terminal and changes no other.
pub terminal_at-add_path :
    (p q : List Text) (n : TrieNode)
    → (terminal_at q (add_path p n) ≡ true) ↔ ((q ≡ p) ⊎ (terminal_at q n ≡ true))
unfolding terminal_at add_path
terminal_at-add_path [] [] (node cs t) = ground arith
terminal_at-add_path [] (k ∷ ks) (node cs t) = ground arith
terminal_at-add_path (l ∷ ls) [] (node cs t) = ground arith
terminal_at-add_path (l ∷ ls) (k ∷ ks) (node cs t) = ground (
  arith,
  lookup_child-set_child k l (add_path ls (get_or_create l cs)) cs,
  text_eq_iff l k,
  terminal_at-add_path ls ks (get_or_create l cs),
  terminal_at-get_or_create l ks cs t,
)

has_sentinel-terminal_at : (n : TrieNode) → has_sentinel n ≡ terminal_at (star ∷ []) n
unfolding has_sentinel terminal_at
has_sentinel-terminal_at (node cs t) = ground arith

-- A terminal path of the form `p` and then the sentinel, where `p` is a proper, non-empty prefix.
pub record Hit (ls : List Text) (n : TrieNode) : Type 0 where
  pub base : List Text
  pub rest : List Text
  pub some_base : base ≢ []
  pub some_rest : rest ≢ []
  pub joined : ls ≡ base ++ rest
  pub ends : terminal_at (base ++ star ∷ []) n ≡ true

terminal_at-cons :
    (l : Text) (ls : List Text) (n c : TrieNode)
    → child_of n l ≡ some c
    → terminal_at (l ∷ ls) n ≡ terminal_at ls c
unfolding terminal_at
terminal_at-cons l ls n c e = rw (e, terminal_at) refl

walk-cons :
    (l : Text) (ls : List Text) (n c : TrieNode)
    → child_of n l ≡ some c
    → walk (l ∷ ls) n ≡ (if has_sentinel c && ltb 0 (length ls) then true else walk ls c)
unfolding walk
walk-cons l ls n c e = rw (e, walk) refl

walk_no_child :
    (l : Text) (ls : List Text) (n : TrieNode) → child_of n l ≡ none → walk (l ∷ ls) n ≡ false
unfolding walk
walk_no_child l ls n e = rw (e, walk) refl

Hit-cons :
    (l : Text) (ls : List Text) (n c : TrieNode) → child_of n l ≡ some c → Hit ls c → Hit (l ∷ ls) n
Hit-cons l ls n c e h = record {
  base = l ∷ h.base;
  rest = h.rest;
  some_base = λ p. cc;
  some_rest = h.some_rest;
  joined = ap (◌∷◌ l) h.joined;
  ends = terminal_at-cons l (h.base ++ star ∷ []) n c e ∙ h.ends;
}

pub walk-Hit : (ls : List Text) (n : TrieNode) → walk ls n ≡ true → Hit ls n
walk-Hit [] n h = unfold walk in absurd (false≢true h)
walk-Hit (l ∷ ls) n h = elim (Option-cases (child_of n l)) [
  | inl e ↦ absurd (false≢true (sym (walk_no_child l ls n e) ∙ h))
  | inr (c, e) ↦ elim (Bool-cases (has_sentinel c && ltb 0 (length ls))) [
    | inl both ↦ record {
      base = l ∷ [];
      rest = ls;
      some_base = λ p. cc;
      some_rest = ground arith;
      joined = refl;
      ends = terminal_at-cons l (star ∷ []) n c e ∙ sym (has_sentinel-terminal_at c) ∙ ground arith;
    }
    | inr next ↦ Hit-cons l ls n c e (walk-Hit ls c (ground (arith, walk-cons l ls n c e)))
  ]
]

pub Hit-walk :
    (base rest : List Text) (n : TrieNode)
    → base ≢ []
    → rest ≢ []
    → terminal_at (base ++ star ∷ []) n ≡ true
    → walk (base ++ rest) n ≡ true
Hit-walk [] rest n hb hr e = absurd (hb refl)
Hit-walk (l ∷ []) rest n hb hr e = elim (Option-cases (child_of n l)) [
  | inl z ↦ unfold terminal_at in absurd (false≢true (rw (z, terminal_at) at e))
  | inr (c, z) ↦ ground (
    arith,
    walk-cons l rest n c z,
    has_sentinel-terminal_at c,
    terminal_at-cons l (star ∷ []) n c z,
  )
]
Hit-walk (l ∷ k ∷ ls) rest n hb hr e = elim (Option-cases (child_of n l)) [
  | inl z ↦ unfold terminal_at in absurd (false≢true (rw (z, terminal_at) at e))
  | inr (c, z) ↦ ground (
    arith,
    walk-cons l (k ∷ ls ++ rest) n c z,
    terminal_at-cons l (k ∷ ls ++ star ∷ []) n c z,
    Hit-walk (k ∷ ls) rest c (λ p. cc) hr,
  )
]
