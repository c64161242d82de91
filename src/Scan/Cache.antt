-- ===== src/Scan/Cache.antt =====
-- internal/scan/cache.go: verdicts by URL and by content hash. A `Shelf` is one sync.Map with its
-- counter. Times and durations are numbers of one unit. A counter is decremented only next to the
-- removal of an entry, so it does not fall below 0 (`Cache.Invariant`) and is a natural number here.
-- Redis is a parameter of each call: what GET and the decoding of its answer gave.
pub mod Invariant
pub mod Lookup
mod Tests
use i_filter_imitation.Common.{
  ℕ, ◌+◌, ◌-◌, ◌/◌, ◌%◌, List, [], ◌∷◌, ◌++◌, Bool, true, false, ◌||◌, Option, none, some, ltb, leb,
  if◌then◌else◌, Text, codes, text_eq,
}
use i_filter_imitation.Scan.Status.{ScanStatus, Verdict, is_clean, is_infected}

pub record CacheEntry : Type 0 where
  pub status : ScanStatus
  pub threat_name : Text
  pub expires_at : ℕ

pub record Shelf : Type 0 where
  pub entries : List (Text × CacheEntry)
  pub count : ℕ

pub record ResultCache : Type 0 where
  pub by_url : Shelf
  pub by_hash : Shelf
  pub url_ttl : ℕ
  pub hash_ttl : ℕ
  pub max_entries : ℕ
  pub has_redis : Bool

-- `unavailable` also stands for a cache without Redis; `garbled` is a payload that is no JSON.
pub data RedisReply : Type 0 where
  unavailable missing garbled : RedisReply
  payload : ScanStatus → Text → RedisReply

unfoldable pub find : Text → List (Text × CacheEntry) → Option CacheEntry
unfolding text_eq
find key [] = none
find key ((k, e) ∷ es) = if text_eq k key then some e else find key es

pub remove : Text → List (Text × CacheEntry) → List (Text × CacheEntry)
unfolding text_eq
remove key [] = []
remove key ((k, e) ∷ es) = let rest = remove key es in if text_eq k key then es else (k, e) ∷ rest

unfoldable pub empty_shelf : Shelf
empty_shelf = record { entries = []; count = 0 }

unfoldable pub new_result_cache : ℕ → ℕ → ℕ → Bool → ResultCache
unfolding empty_shelf
new_result_cache url_ttl hash_ttl max_entries has_redis = record {
  by_url = empty_shelf;
  by_hash = empty_shelf;
  url_ttl = url_ttl;
  hash_ttl = hash_ttl;
  max_entries = max_entries;
  has_redis = has_redis;
}

-- `storeMem`: nothing is stored on a full shelf, nor over an entry that is there.
unfoldable pub store_mem : ℕ → Text → CacheEntry → Shelf → Shelf
unfolding find
store_mem max_entries key e s = if leb max_entries s.count then s else elim (find key s.entries) [
  | none ↦ record { entries = (key, e) ∷ s.entries; count = s.count + 1 }
  | some _ ↦ s
]

-- the part of `get` behind the in-memory lookup
unfoldable pub ask_redis : ℕ → ℕ → ℕ → RedisReply → Text → Shelf → Option Verdict × Shelf
unfolding store_mem
ask_redis max_entries ttl now (payload status threat) key s = (
  some (status, threat),
  store_mem max_entries key
      (record { status = status; threat_name = threat; expires_at = now + ttl }) s,
)
ask_redis max_entries ttl now _ key s = (none, s)

pub drop_key : Text → Shelf → Shelf
unfolding remove
drop_key key s = record { entries = remove key s.entries; count = s.count - 1 }

unfoldable pub get : ℕ → ℕ → ℕ → RedisReply → Text → Shelf → Option Verdict × Shelf
unfolding find drop_key ask_redis
get max_entries ttl now reply key s = elim (find key s.entries) [
  | none ↦ ask_redis max_entries ttl now reply key s
  | some e ↦
      if ltb now e.expires_at
      then (some (e.status, e.threat_name), s)
      else ask_redis max_entries ttl now reply key (drop_key key s)
]

-- `evict`: the entries whose time is before `now` go.
pub evict_entries : ℕ → List (Text × CacheEntry) → ℕ → List (Text × CacheEntry) × ℕ
evict_entries now [] n = ([], n)
evict_entries now ((k, e) ∷ es) n =
    let (kept, m) = evict_entries now es n in
    if ltb e.expires_at now then (kept, m - 1) else ((k, e) ∷ kept, m)

unfoldable pub evict : ℕ → Shelf → Shelf
unfolding evict_entries
evict now s =
    let (kept, m) = evict_entries now s.entries s.count in record { entries = kept; count = m }

-- one round of the loop in `StartCleanup`
unfoldable pub cleanup : ℕ → ResultCache → ResultCache
unfolding evict
cleanup now c = record c { by_url = evict now c.by_url; by_hash = evict now c.by_hash }

-- the format verb %x on bytes
hex_digit : ℕ → ℕ
hex_digit d = if ltb d 10 then b'0' + d else b'a' + (d - 10)

unfoldable pub hex : Text → Text
unfolding hex_digit
hex [] = []
hex (b ∷ bs) = hex_digit (b / 16) ∷ hex_digit (b % 16) ∷ hex bs

abbrev pub redis_prefix_url : Text
redis_prefix_url = codes "scan:url:"

abbrev pub redis_prefix_hash : Text
redis_prefix_hash = codes "scan:hash:"

-- a Redis SET: key, payload, time to live
pub record RedisSet : Type 0 where
  pub key : Text
  pub value : Verdict
  pub ttl : ℕ

module _ (sha256 : Text → Text) where
  unfoldable pub get_by_url : ℕ → RedisReply → Text → ResultCache → Option Verdict × ResultCache
  unfolding get hex
  get_by_url now reply raw_url c =
      let (v, s) = get c.max_entries c.url_ttl now reply (hex (sha256 raw_url)) c.by_url in
      (v, record c { by_url = s })

  unfoldable pub get_by_hash : ℕ → RedisReply → Text → ResultCache → Option Verdict × ResultCache
  unfolding get hex
  get_by_hash now reply content_hash c =
      let (v, s) = get c.max_entries c.hash_ttl now reply (hex content_hash) c.by_hash in
      (v, record c { by_hash = s })

  -- `Store`: the new cache and the writes to Redis
  unfoldable pub store :
      ℕ → Text → Text → ScanStatus → Text → ResultCache → ResultCache × List RedisSet
  unfolding store_mem hex
  store now raw_url content_hash status threat c =
      if is_clean status || is_infected status
      then (
        record c {
          by_url =
              store_mem c.max_entries (hex (sha256 raw_url))
                (record { status = status; threat_name = threat; expires_at = now + c.url_ttl })
                c.by_url;
          by_hash =
              store_mem c.max_entries (hex content_hash)
                (record { status = status; threat_name = threat; expires_at = now + c.hash_ttl })
                c.by_hash;
        },
        if c.has_redis
            then record {
              key = redis_prefix_url ++ hex (sha256 raw_url);
              value = (status, threat);
              ttl = c.url_ttl;
            }
              ∷ record {
                key = redis_prefix_hash ++ hex content_hash;
                value = (status, threat);
                ttl = c.hash_ttl;
              }
              ∷ []
            else [],
      )
      else (c, [])
