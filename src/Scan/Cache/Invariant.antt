-- ===== src/Scan/Cache/Invariant.antt =====
-- A shelf's counter is the number of its entries, stays within the limit, and no key stands twice.
use i_filter_imitation.Common.{
  ℕ, ◌+◌, ◌≤◌, List, [], ◌∷◌, length, none, some, ltb, Text, ◌≡◌, refl, arith, Option-cases,
  Bool-cases, inl, inr,
}
use i_filter_imitation.Scan.Cache.{
  CacheEntry, Shelf, RedisReply, payload, find, remove, drop_key, empty_shelf, store_mem, ask_redis,
  get, evict_entries, evict,
}

abbrev pub Distinct : List (Text × CacheEntry) → Type 0
Distinct [] = Unit
Distinct ((k, e) ∷ es) = (find k es ≡ none) × Distinct es

pub record IsSound (max_entries : ℕ) (s : Shelf) : Type 0 where
  pub counted : s.count ≡ length s.entries
  pub bounded : s.count ≤ max_entries
  pub distinct : Distinct s.entries

pub empty_shelf-IsSound : (max_entries : ℕ) → IsSound max_entries empty_shelf
unfolding empty_shelf
empty_shelf-IsSound n = record { counted = refl; bounded = omega arith; distinct = tt }

pub store_mem-IsSound :
    (n : ℕ) (key : Text) (e : CacheEntry) (s : Shelf)
    → IsSound n s
    → IsSound n (store_mem n key e s)
unfolding store_mem
store_mem-IsSound n key e s v = ground arith

length-remove :
    (key : Text) (es : List (Text × CacheEntry)) (e : CacheEntry)
    → find key es ≡ some e
    → length es ≡ length (remove key es) + 1
unfolding find remove
length-remove key [] e h = cc
length-remove key ((k, x) ∷ es) e h = ground (arith, length-remove key es e)

find-remove_other :
    (key j : Text) (es : List (Text × CacheEntry))
    → find j es ≡ none
    → find j (remove key es) ≡ none
unfolding find remove
find-remove_other key j [] h = refl
find-remove_other key j ((k, e) ∷ es) h = ground (arith, find-remove_other key j es)

remove-Distinct :
    (key : Text) (es : List (Text × CacheEntry)) → Distinct es → Distinct (remove key es)
unfolding remove
remove-Distinct key [] d = tt
remove-Distinct key ((k, e) ∷ es) d =
    ground (arith, remove-Distinct key es, find-remove_other key k es)

drop_key-IsSound :
    (n : ℕ) (key : Text) (s : Shelf) (e : CacheEntry)
    → IsSound n s
    → find key s.entries ≡ some e
    → IsSound n (drop_key key s)
unfolding drop_key
drop_key-IsSound n key s e v h =
    ground (arith, length-remove key s.entries e h, remove-Distinct key s.entries v.distinct)

ask_redis-IsSound :
    (n ttl now : ℕ) (r : RedisReply) (key : Text) (s : Shelf)
    → IsSound n s
    → IsSound n (ask_redis n ttl now r key s).1
unfolding ask_redis
ask_redis-IsSound n ttl now (payload st th) key s v = store_mem-IsSound n key _ s v
ask_redis-IsSound n ttl now _ key s v = v

pub get-IsSound :
    (n ttl now : ℕ) (r : RedisReply) (key : Text) (s : Shelf)
    → IsSound n s
    → IsSound n (get n ttl now r key s).1
unfolding get
get-IsSound n ttl now r key s v = elim (Option-cases (find key s.entries)) [
  | inl absent ↦ rw (absent, get) (ask_redis-IsSound n ttl now r key s v)
  | inr (e, held) ↦ elim (Bool-cases (ltb now e.expires_at)) [
    | inl live ↦ rw (held, live, get) v
    | inr dead ↦
        rw (held, dead, get)
          (ask_redis-IsSound n ttl now r key (drop_key key s) (drop_key-IsSound n key s e v held))
  ]
]

find-evict_entries :
    (now n : ℕ) (j : Text) (es : List (Text × CacheEntry))
    → find j es ≡ none
    → find j (evict_entries now es n).0 ≡ none
unfolding find evict_entries
find-evict_entries now n j [] h = refl
find-evict_entries now n j ((k, e) ∷ es) h = ground (arith, find-evict_entries now n j es)

evict_entries-Distinct :
    (now n : ℕ) (es : List (Text × CacheEntry)) → Distinct es → Distinct (evict_entries now es n).0
unfolding evict_entries
evict_entries-Distinct now n [] d = tt
evict_entries-Distinct now n ((k, e) ∷ es) d =
    ground (arith, evict_entries-Distinct now n es, find-evict_entries now n k es)

-- The counter falls by one for each entry that goes, and never below the entries that stay.
length-evict_entries :
    (now n : ℕ) (es : List (Text × CacheEntry))
    → length es ≤ n
    → ((evict_entries now es n).1 + length es ≡ n + length (evict_entries now es n).0)
      × (length (evict_entries now es n).0 ≤ length es)
unfolding evict_entries
length-evict_entries now n [] h = omega arith
length-evict_entries now n ((k, e) ∷ es) h = ground (arith, length-evict_entries now n es)

pub evict-IsSound : (n now : ℕ) (s : Shelf) → IsSound n s → IsSound n (evict now s)
unfolding evict
evict-IsSound n now s v = ground (
  arith,
  length-evict_entries now s.count s.entries,
  evict_entries-Distinct now s.count s.entries v.distinct,
)

-- What the program does to one shelf.
pub data ShelfOp : Type 0 where
  storing : Text → CacheEntry → ShelfOp
  getting : ℕ → ℕ → RedisReply → Text → ShelfOp
  evicting : ℕ → ShelfOp

pub run : ℕ → List ShelfOp → Shelf → Shelf
unfolding store_mem get evict
run n [] s = s
run n (storing key e ∷ ops) s = run n ops (store_mem n key e s)
run n (getting ttl now reply key ∷ ops) s = run n ops (get n ttl now reply key s).1
run n (evicting now ∷ ops) s = run n ops (evict now s)

-- Any sequence of stores, lookups (whatever Redis answers) and evictions, from a sound shelf such
-- as the empty one, leaves a shelf whose counter is the number of its entries and at most the
-- limit, and in which no key stands twice.
pub run-IsSound : (n : ℕ) (ops : List ShelfOp) (s : Shelf) → IsSound n s → IsSound n (run n ops s)
unfolding run
run-IsSound n [] s v = v
run-IsSound n (storing key e ∷ ops) s v = run-IsSound n ops _ (store_mem-IsSound n key e s v)
run-IsSound n (getting ttl now reply key ∷ ops) s v =
    run-IsSound n ops _ (get-IsSound n ttl now reply key s v)
run-IsSound n (evicting now ∷ ops) s v = run-IsSound n ops _ (evict-IsSound n now s v)
