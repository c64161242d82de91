-- ===== src/Scan/Cache/Lookup.antt =====
-- What a lookup answers after a store, after an eviction and past the expiry.
use i_filter_imitation.Common.{
  ℕ, ◌+◌, ◌<◌, List, [], ◌∷◌, true, ◌||◌, Option, none, some, ltb, if◌then◌else◌, Text, text_eq,
  text_eq_iff, ◌≡◌, ◌≢◌, inl, inr, refl, ap, ◌∙◌, arith, Bool-cases,
}
use i_filter_imitation.Scan.Status.{ScanStatus, Verdict, is_clean, is_infected}
use i_filter_imitation.Scan.Cache.{
  CacheEntry, Shelf, ResultCache, RedisReply, payload, find, remove, drop_key, store_mem, ask_redis,
  get, evict_entries, evict, get_by_url, store, hex,
}
use i_filter_imitation.Scan.Cache.Invariant.{IsSound, Distinct}

-- the verdict of an entry that has not expired
abbrev pub live : ℕ → Option CacheEntry → Option Verdict
live now none = none
live now (some e) = if ltb now e.expires_at then some (e.status, e.threat_name) else none

find_stored :
    (n : ℕ) (key : Text) (e : CacheEntry) (s : Shelf)
    → s.count < n
    → find key s.entries ≡ none
    → find key (store_mem n key e s).entries ≡ some e
unfolding store_mem
find_stored n key e s room absent = ground (arith, text_eq_iff key key)

find_other :
    (n : ℕ) (key j : Text) (e : CacheEntry) (s : Shelf)
    → key ≢ j
    → find j (store_mem n key e s).entries ≡ find j s.entries
unfolding store_mem
find_other n key j e s ne = ground (arith, text_eq_iff key j)

get_live :
    (n ttl now : ℕ) (r : RedisReply) (key : Text) (s : Shelf) (e : CacheEntry)
    → find key s.entries ≡ some e
    → now < e.expires_at
    → get n ttl now r key s ≡ (some (e.status, e.threat_name), s)
unfolding get
get_live n ttl now r key s e held fresh = ground arith

find-store_mem :
    (n : ℕ) (key j : Text) (e : CacheEntry) (s : Shelf)
    → s.count < n
    → find key s.entries ≡ none
    → find j (store_mem n key e s).entries ≡ (if text_eq key j then some e else find j s.entries)
find-store_mem n key j e s room absent = elim (Bool-cases (text_eq key j)) [
  | inl same ↦ rw (same, ← (text_eq_iff key j).0 same) (find_stored n key e s room absent)
  | inr other ↦ rw other (find_other n key j e s (λ z. cc ((text_eq_iff key j).1 z)))
]

-- the entry that `Store` makes for the URL
abbrev pub url_entry : ResultCache → ℕ → ScanStatus → Text → CacheEntry
url_entry c at status threat = record {
  status = status;
  threat_name = threat;
  expires_at = at + c.url_ttl;
}

store-by_url :
    (sha256 : Text → Text) (c : ResultCache) (url hash threat : Text) (status : ScanStatus) (at : ℕ)
    → (is_clean status || is_infected status) ≡ true
    → (store sha256 at url hash status threat c).0.by_url
      ≡ store_mem c.max_entries (hex (sha256 url)) (url_entry c at status threat) c.by_url
unfolding store
store-by_url sha256 c url hash threat status at kept = rw kept

store-max_entries :
    (sha256 : Text → Text) (c : ResultCache) (url hash threat : Text) (status : ScanStatus) (at : ℕ)
    → (store sha256 at url hash status threat c).0.max_entries ≡ c.max_entries
unfolding store
store-max_entries sha256 c url hash threat status at = ground arith

get_by_url_step :
    (sha256 : Text → Text) (c : ResultCache) (now : ℕ) (r : RedisReply) (url : Text)
    → (get_by_url sha256 now r url c).0
      ≡ (get c.max_entries c.url_ttl now r (hex (sha256 url)) c.by_url).0
unfolding get_by_url
get_by_url_step sha256 c now r url = refl

-- A clean or infected verdict that `Store` is given for a URL comes back from `GetByURL` until the
-- URL's time to live is over, whatever Redis holds, if the URL's shelf had room and no entry for
-- it; the entry found for any URL is then the new one if its key is that of the URL, else the old.
pub get_by_url-store :
    (sha256 : Text → Text) (c : ResultCache) (url other hash threat : Text) (status : ScanStatus)
    (at now : ℕ) (r : RedisReply)
    → (is_clean status || is_infected status) ≡ true
    → c.by_url.count < c.max_entries
    → find (hex (sha256 url)) c.by_url.entries ≡ none
    → now < at + c.url_ttl
    → let c' = (store sha256 at url hash status threat c).0 in
      ((get_by_url sha256 now r url c').0 ≡ some (status, threat))
      × (find (hex (sha256 other)) c'.by_url.entries ≡ (
          if text_eq (hex (sha256 url)) (hex (sha256 other))
          then some (url_entry c at status threat)
          else find (hex (sha256 other)) c.by_url.entries))
get_by_url-store sha256 c url other hash threat status at now r kept room absent fresh = (
  get_by_url_step sha256 _ now r url
      ∙ ap (λ p. p.0)
          (get_live _ _ now r (hex (sha256 url)) _ (url_entry c at status threat)
            (ap (λ (s : Shelf). find (hex (sha256 url)) s.entries) shelf
              ∙ find_stored c.max_entries _ _ c.by_url room absent)
            fresh),
  ap (λ (s : Shelf). find (hex (sha256 other)) s.entries) shelf
      ∙ find-store_mem c.max_entries (hex (sha256 url)) (hex (sha256 other)) _ c.by_url room absent,
)
  where
    shelf :
        (store sha256 at url hash status threat c).0.by_url
        ≡ store_mem c.max_entries (hex (sha256 url)) (url_entry c at status threat) c.by_url
    shelf = store-by_url sha256 c url hash threat status at kept

-- Redis answered with no verdict.
abbrev pub IsNoPayload : RedisReply → Type 0
IsNoPayload (payload _ _) = ⊥
IsNoPayload _ = Unit

ask_redis-none :
    (n ttl now : ℕ) (r : RedisReply) (key : Text) (s : Shelf)
    → IsNoPayload r
    → ask_redis n ttl now r key s ≡ (none, s)
unfolding ask_redis
ask_redis-none n ttl now (payload a b) key s h = absurd h
ask_redis-none n ttl now _ key s h = refl

find-remove :
    (key : Text) (es : List (Text × CacheEntry)) → Distinct es → find key (remove key es) ≡ none
unfolding find remove
find-remove key [] d = refl
find-remove key ((k, e) ∷ es) d = ground (arith, text_eq_iff k key, find-remove key es)

-- the entry that is still found after a lookup
abbrev pub still : ℕ → Option CacheEntry → Option CacheEntry
still now none = none
still now (some e) = if ltb now e.expires_at then some e else none

-- Where Redis has nothing, a lookup answers with the entry's verdict before its expiry and with
-- nothing from then on; afterwards the entry is still there before its expiry and gone from then on.
pub get_without_redis :
    (n ttl now : ℕ) (r : RedisReply) (key : Text) (s : Shelf)
    → IsSound n s
    → IsNoPayload r
    → ((get n ttl now r key s).0 ≡ live now (find key s.entries))
      × (find key (get n ttl now r key s).1.entries ≡ still now (find key s.entries))
unfolding get drop_key
get_without_redis n ttl now r key s v h = ground (
  arith,
  ask_redis-none n ttl now r key s h,
  ask_redis-none n ttl now r key (drop_key key s) h,
  find-remove key s.entries v.distinct,
)

-- the part of `find` that an eviction keeps
abbrev pub unexpired : ℕ → Option CacheEntry → Option CacheEntry
unexpired now none = none
unexpired now (some e) = if ltb e.expires_at now then none else some e

find-evict_none :
    (now n : ℕ) (j : Text) (es : List (Text × CacheEntry))
    → find j es ≡ none
    → find j (evict_entries now es n).0 ≡ none
unfolding find evict_entries
find-evict_none now n j [] h = refl
find-evict_none now n j ((k, e) ∷ es) h = ground (arith, find-evict_none now n j es)

find-evict_entries :
    (now n : ℕ) (j : Text) (es : List (Text × CacheEntry))
    → Distinct es
    → find j (evict_entries now es n).0 ≡ unexpired now (find j es)
unfolding find evict_entries
find-evict_entries now n j [] d = refl
find-evict_entries now n j ((k, e) ∷ es) d = ground (
  arith,
  text_eq_iff k j,
  find-evict_entries now n j es,
  find-evict_none now n k es,
  find-evict_none now n j es,
)

-- The cleanup removes the entries whose time is over, and no other.
pub find-evict :
    (now n : ℕ) (key : Text) (s : Shelf)
    → IsSound n s
    → find key (evict now s).entries ≡ unexpired now (find key s.entries)
unfolding evict
find-evict now n key s v = find-evict_entries now s.count key s.entries v.distinct
