-- ===== src/Proxy/Blocklist.antt =====
-- internal/proxy/blocklist.go: exact names in a set, wildcard names in a trie of reversed labels.
-- A Go map from labels to nodes is an association list. The pointer walk of `addEntry` is a
-- recursion that rebuilds the nodes on its path.
pub mod Walk
pub mod Covers
mod Tests
use i_filter_imitation.Common.{
  ℕ, List, [], ◌∷◌, ◌++◌, reverse, Bool, true, false, ◌&&◌, ◌||◌, Option, none, some, ltb, length,
  if◌then◌else◌, Text, codes, text_eq, to_lower, trim_space, split, cut_prefix, ◌≡◌, refl,
}
use i_filter_imitation.Proxy.HostPort.{split_host_port}

mutual
  pub data TrieNode : Type 0 where
    node : Children → Bool → TrieNode

  pub data Children : Type 0 where
    nil : Children
    child : Text → TrieNode → Children → Children

pub record Blocklist : Type 0 where
  pub exact : List Text
  pub trie : TrieNode

pub empty_node : TrieNode
empty_node = node nil false

pub lookup_child : Text → Children → Option TrieNode
lookup_child l nil = none
lookup_child l (child k n cs) = if text_eq k l then some n else lookup_child l cs

-- n.children[l] = m
pub set_child : Text → TrieNode → Children → Children
set_child l m nil = child l m nil
set_child l m (child k n cs) =
    let rest = set_child l m cs in if text_eq k l then child k m cs else child k n rest

-- the child that `getOrCreate` returns
pub get_or_create : Text → Children → TrieNode
unfolding lookup_child empty_node
get_or_create l cs = elim (lookup_child l cs) [ none ↦ empty_node | some n ↦ n ]

abbrev pub star : Text
star = b'*' ∷ []

-- The walk of `addEntry` down a path of labels; the node at its end becomes terminal.
pub add_path : List Text → TrieNode → TrieNode
unfolding get_or_create set_child
add_path [] (node cs t) = node cs true
add_path (l ∷ ls) (node cs t) = node (set_child l (add_path ls (get_or_create l cs)) cs) t

abbrev pub wildcard : Text
wildcard = codes "*."

-- the line after `strings.ToLower(strings.TrimSpace(line))`
pub add_line : Blocklist → Text → Blocklist
unfolding add_path cut_prefix split
add_line bl [] = bl
add_line bl (c ∷ line) = elim (cut_prefix (c ∷ line) wildcard) [
  | some base ↦ record bl { trie = add_path (reverse (split base b'.') ++ star ∷ []) bl.trie }
  | none ↦ record bl { exact = (c ∷ line) ∷ bl.exact }
]

pub add_entry : Blocklist → Text → Blocklist
unfolding add_line to_lower trim_space
add_entry bl line = add_line bl (to_lower (trim_space line))

pub add_entries : Blocklist → List Text → Blocklist
unfolding add_entry
add_entries bl [] = bl
add_entries bl (d ∷ ds) = add_entries (add_entry bl d) ds

unfoldable pub new_blocklist : List Text → Blocklist
unfolding add_entries empty_node
new_blocklist domains = add_entries (record { exact = []; trie = empty_node }) domains

-- wc, ok := node.children["*"]; ok && wc.terminal
pub has_sentinel : TrieNode → Bool
unfolding lookup_child
has_sentinel (node cs t) = elim (lookup_child star cs) [ none ↦ false | some (node _ wc) ↦ wc ]

pub child_of : TrieNode → Text → Option TrieNode
unfolding lookup_child
child_of (node cs t) l = lookup_child l cs

-- The loop of `wildcardBlocked` over the labels from the last one on: `length ls` is its index i.
pub walk : List Text → TrieNode → Bool
unfolding has_sentinel child_of
walk [] n = false
walk (l ∷ ls) n = elim (child_of n l) [
  | none ↦ false
  | some c ↦ if has_sentinel c && ltb 0 (length ls) then true else walk ls c
]

pub wildcard_blocked : Blocklist → Text → Bool
unfolding walk split
wildcard_blocked bl h = walk (reverse (split h b'.')) bl.trie

unfoldable pub mem : Text → List Text → Bool
unfolding text_eq
mem h [] = false
mem h (k ∷ ks) = text_eq k h || mem h ks

-- the name that `IsBlocked` looks up: lower case, without the port
unfoldable pub host_name : Text → Text
unfolding to_lower split_host_port
host_name host = elim (split_host_port (to_lower host)) [
  | none ↦ to_lower host
  | some (stripped, _) ↦ stripped
]

-- A nil blocklist blocks nothing.
unfoldable pub is_blocked : Option Blocklist → Text → Bool
unfolding host_name mem wildcard_blocked
is_blocked none host = false
is_blocked (some bl) host = mem (host_name host) bl.exact || wildcard_blocked bl (host_name host)
