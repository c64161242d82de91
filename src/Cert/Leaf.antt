-- ===== src/Cert/Leaf.antt =====
-- internal/cert/leaf.go: leaf certificates by domain, in memory and in Redis. What a certificate is, and
-- its signing by the CA, are the Go library's: `C` is the type of certificates, and each call is given a
-- signing function. Times are seconds. The sync.Map is an association list without its order; the
-- counter falls only next to the removal of an entry.
pub mod Invariant
pub mod Count
pub mod Race
mod Tests
use i_filter_imitation.Common.{
  ℕ, ◌+◌, ◌-◌, ◌*◌, List, [], ◌∷◌, ◌++◌, Bool, true, false, Option, none, some, ltb, leb,
  if◌then◌else◌, Text, codes, text_eq,
}

abbrev pub day : ℕ
day = 86400

abbrev pub mem_cache_max : ℕ
mem_cache_max = 2000

abbrev pub redis_key_prefix : Text
redis_key_prefix = codes "leafcert:"

abbrev pub redis_key : Text → Text
redis_key domain = redis_key_prefix ++ domain

-- the fields of x509.Certificate that `generate` chooses for the domain
pub record Template : Type 0 where
  pub common_name : Text
  pub dns_names : List Text
  pub not_before : ℕ
  pub not_after : ℕ

unfoldable pub template : Text → ℕ → Template
template domain now = record {
  common_name = domain;
  dns_names = domain ∷ [];
  not_before = now - 3600;
  not_after = now + 365 * day;
}

pub record MemEntry (C : Type 0) : Type 0 where
  pub cert : C
  pub expires_at : ℕ

-- A value in Redis: one that is not decoded, or a certificate (none if its PEM text is not parsed) with
-- the end of its time.
pub data CachedCert (C : Type 0) : Type 0 where
  garbled : CachedCert C
  cached : Option C → ℕ → CachedCert C

pub record Cache (C : Type 0) : Type 0 where
  pub mem : List (Text × MemEntry C)
  pub count : ℕ
  pub redis : Text → Option (CachedCert C)

-- the inputs of a call: the time, whether Redis answers to GET, SET and DEL, and the signing
pub record Inputs (C : Type 0) : Type 0 where
  pub now : ℕ
  pub gets : Bool
  pub sets : Bool
  pub deletes : Bool
  pub sign : Template → Option C

abbrev pub domain_of : Text → Text
domain_of [] = codes "localhost"
domain_of (b ∷ name) = b ∷ name

module _ {C : Type 0} where
  unfoldable pub load : Text → List (Text × MemEntry C) → Option (MemEntry C)
  unfolding text_eq
  load d [] = none
  load d ((k, e) ∷ es) = let rest = load d es in if text_eq k d then some e else rest

  unfoldable pub delete : Text → List (Text × MemEntry C) → List (Text × MemEntry C)
  unfolding text_eq
  delete d [] = []
  delete d ((k, e) ∷ es) = let rest = delete d es in if text_eq k d then rest else (k, e) ∷ rest

  -- memCache.Store takes the place of an entry that is there; the counter is raised all the same.
  unfoldable pub store_mem : Text → C → ℕ → Cache C → Cache C
  unfolding delete
  store_mem d cert not_after c = if leb mem_cache_max c.count then c else record c {
    mem = (d, record { cert = cert; expires_at = not_after }) ∷ delete d c.mem;
    count = c.count + 1;
  }

  unfoldable pub drop_mem : Text → Cache C → Cache C
  unfolding delete
  drop_mem d c = record c { mem = delete d c.mem; count = c.count - 1 }

  unfoldable pub evict_entries : ℕ → List (Text × MemEntry C) → ℕ → List (Text × MemEntry C) × ℕ
  evict_entries now [] n = ([], n)
  evict_entries now ((k, e) ∷ es) n =
      let (kept, m) = evict_entries now es n in
      if ltb e.expires_at now then (kept, m - 1) else ((k, e) ∷ kept, m)

  unfoldable pub evict_expired : ℕ → Cache C → Cache C
  unfolding evict_entries
  evict_expired now c =
      let (kept, n) = evict_entries now c.mem c.count in record c { mem = kept; count = n }

  unfoldable pub set_redis : Text → Option (CachedCert C) → Cache C → Cache C
  unfolding text_eq
  set_redis key v c = record c { redis = λ k. if text_eq k key then v else c.redis k }

  -- The time to live is what is left of the certificate's time less a day.
  unfoldable pub save_to_redis : Inputs C → Text → C → ℕ → Cache C → Cache C
  unfolding set_redis
  save_to_redis i key cert not_after c =
      if leb not_after (i.now + day)
      then c
      else if i.sets
      then set_redis key (some (cached (some cert) not_after)) c
      else c

  unfoldable pub del_redis : Inputs C → Text → Cache C → Cache C
  unfolding set_redis
  del_redis i key c = if i.deletes then set_redis key none c else c

  unfoldable pub generate : Inputs C → Text → Option (C × ℕ)
  unfolding template
  generate i domain =
      let t = template domain i.now in
      elim (i.sign t) [ none ↦ none | some cert ↦ some (cert, t.not_after) ]

  -- the third part of `GetCert`
  unfoldable pub get_new : Inputs C → Text → Cache C → Option C × Cache C
  unfolding generate save_to_redis store_mem
  get_new i d c = elim (generate i d) [
    | none ↦ (none, c)
    | some (cert, not_after) ↦
        (some cert, store_mem d cert not_after (save_to_redis i (redis_key d) cert not_after c))
  ]

  -- the second part, with the value that Redis gives
  unfoldable pub get_cached : Inputs C → Text → CachedCert C → Cache C → Option C × Cache C
  unfolding get_new del_redis store_mem
  get_cached i d garbled c = get_new i d (del_redis i (redis_key d) c)
  get_cached i d (cached cert not_after) c =
      if ltb (i.now + day) not_after
      then elim cert [ none ↦ (none, c) | some x ↦ (some x, store_mem d x not_after c) ]
      else get_new i d (del_redis i (redis_key d) c)

  unfoldable pub ask_redis : Inputs C → Text → Cache C → Option C × Cache C
  unfolding get_cached get_new
  ask_redis i d c =
      if i.gets
      then elim (c.redis (redis_key d)) [ none ↦ get_new i d c | some v ↦ get_cached i d v c ]
      else get_new i d c

  unfoldable pub get_cert : Inputs C → Text → Cache C → Option C × Cache C
  unfolding load ask_redis drop_mem
  get_cert i server_name c =
      let d = domain_of server_name in
      elim (load d c.mem) [
        | none ↦ ask_redis i d c
        | some e ↦
            if ltb (i.now + day) e.expires_at
            then (some e.cert, c)
            else ask_redis i d (drop_mem d c)
      ]
