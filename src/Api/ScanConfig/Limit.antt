-- ===== src/Api/ScanConfig/Limit.antt =====
-- The limit that the setting `max_size_mb` sets for the scanning transport.
use mathlib.Core.Bool.{false≢true}
use i_filter_imitation.Common.{
  ℕ, ◌-◌, ◌*◌, ◌^◌, ◌%◌, ◌≤◌, ◌<◌, List, true, false, Option, none, some, Text, ◌≡◌, ◌↔◌, ◌⊎◌, inl,
  inr, sym, ◌∙◌, arith, if_intro, parse_int, codes,
}
use i_filter_imitation.Scan.Config.{ScanConfig, is_scannable, max_size_bytes}
use i_filter_imitation.Scan.Manager.{Manager, Request, Response, lookup_url, set_config}
use i_filter_imitation.Api.ScanConfig.{
  ScanStore, Setting, config_of, max_size_of, not_positive, setting,
}
use i_filter_imitation.Proxy.Sync.{load_scan_config, config}
use i_filter_imitation.Proxy.ScanTransport.{TripEnv, exceeds, round_trip}
use i_filter_imitation.Proxy.ScanTransport.Laws.{passes, CachedClean, round_trip_iff}

-- The limit is a positive number whatever the table holds: 500 where its text is no positive number.
pub max_size_of-bounds : (ss : List Setting) → (1 ≤ max_size_of ss) × (max_size_of ss < 2 ^ 63)
unfolding max_size_of
max_size_of-bounds ss =
    let n = parse_int (setting (codes "max_size_mb") ss) in
    if_intro (λ m. (1 ≤ m) × (m < 2 ^ 63)) (not_positive n) _ _ (λ _. omega arith)
      (λ h. ground (arith, h))

-- The length is known and greater than the limit in megabytes.
abbrev pub TooLong : ScanConfig → Option ℕ → Type 0
TooLong c none = ⊥
TooLong c (some n) = c.max_size_mb * 2 ^ 20 < n

in_range : (m : ℕ) → m < 2 ^ 43 → m * 2 ^ 20 % 2 ^ 64 ≡ m * 2 ^ 20
in_range m h = omega (arith, h)

out_of_range : (m : ℕ) → 2 ^ 43 ≤ m % 2 ^ 44 → 2 ^ 63 ≤ m * 2 ^ 20 % 2 ^ 64
out_of_range m h = omega (arith, h)

not_last : (m : ℕ) → m * 2 ^ 20 % 2 ^ 64 < 2 ^ 64 - 1
not_last m = omega arith

positive_limit : (w : ℕ) (n : ℕ) → w < 2 ^ 63 → (exceeds (some n) w ≡ true) ↔ (w < n)
unfolding exceeds
positive_limit w n h = (λ e. ground (arith, e, h), λ l. ground (arith, l, h))

positive_no_length : (w : ℕ) → w < 2 ^ 63 → exceeds none w ≡ false
unfolding exceeds
positive_no_length w h = ground (arith, h)

negative_limit : (w : ℕ) (len : Option ℕ) → 2 ^ 63 ≤ w → w < 2 ^ 64 - 1 → exceeds len w ≡ true
unfolding exceeds
negative_limit w none h l = ground (arith, h, l)
negative_limit w (some n) h l = ground (arith, h, l)

small_exceeds :
    (c : ScanConfig) (len : Option ℕ)
    → c.max_size_mb < 2 ^ 43
    → (exceeds len (max_size_bytes c) ≡ true) ↔ TooLong c len
unfolding max_size_bytes
small_exceeds c none h = (
  λ e. absurd (false≢true (sym (positive_no_length (max_size_bytes c) (omega (arith, h))) ∙ e)),
  λ z. absurd z,
)
small_exceeds c (some n) h =
    let r = in_range c.max_size_mb h in
    let p = positive_limit (max_size_bytes c) n (omega (arith, h)) in
    (λ e. omega (arith, p.0 e, r), λ l. p.1 (omega (arith, l, r)))

huge_exceeds :
    (c : ScanConfig) (len : Option ℕ)
    → 2 ^ 43 ≤ c.max_size_mb % 2 ^ 44
    → exceeds len (max_size_bytes c) ≡ true
unfolding max_size_bytes
huge_exceeds c len h =
    negative_limit (max_size_bytes c) len (out_of_range c.max_size_mb h) (not_last c.max_size_mb)

-- the proxy behind a load of the configuration of the tables
abbrev pub loaded_manager : ScanStore → Manager → Manager
loaded_manager s m = load_scan_config (config (config_of s)) m

module _ (s : ScanStore) (sha256 : Text → Text) (env : TripEnv) (req : Request) (resp : Response)
    (m : Manager) where
  by_bytes : (passes (round_trip sha256 env req (some resp) (loaded_manager s m)).0 ≡ true) ↔ (
      (is_scannable (config_of s) resp.content_type ≡ false)
      ⊎ (exceeds resp.content_length (max_size_bytes (config_of s)) ≡ true)
      ⊎ CachedClean (lookup_url sha256 env.now env.url_reply req.url (loaded_manager s m)).0)
  unfolding load_scan_config set_config
  by_bytes = round_trip_iff sha256 env req resp (set_config (config_of s) m)

  middle : {A B C D : Type 0} → (B → C) → A ⊎ B ⊎ D → A ⊎ C ⊎ D
  middle f (inl a) = inl a
  middle f (inr (inl b)) = inr (inl (f b))
  middle f (inr (inr d)) = inr (inr d)

  -- With a limit below 2 to the 43 megabytes in the tables, and their configuration loaded, a response
  -- passes the scanner by if and only if its type is not to be scanned, its length is known and more
  -- than the limit in megabytes, or the cache calls its URL clean.
  pub round_trip-config_of :
      max_size_of s.settings < 2 ^ 43
      → (passes (round_trip sha256 env req (some resp) (loaded_manager s m)).0 ≡ true) ↔ (
          (is_scannable (config_of s) resp.content_type ≡ false)
          ⊎ TooLong (config_of s) resp.content_length
          ⊎ CachedClean (lookup_url sha256 env.now env.url_reply req.url (loaded_manager s m)).0)
  unfolding config_of
  round_trip-config_of h =
      let e = small_exceeds (config_of s) resp.content_length h in
      (λ p. middle e.0 (by_bytes.0 p), λ q. by_bytes.1 (middle e.1 q))

  -- With a limit in the tables whose remainder by 2 to the 44 is 2 to the 43 or more, and their
  -- configuration loaded, every response passes the scanner by, whatever its type, its length and the
  -- cache: the limit in bytes is a negative number.
  pub round_trip-huge_limit :
      2 ^ 43 ≤ max_size_of s.settings % 2 ^ 44
      → passes (round_trip sha256 env req (some resp) (loaded_manager s m)).0 ≡ true
  unfolding config_of
  round_trip-huge_limit h =
      by_bytes.1 (inr (inl (huge_exceeds (config_of s) resp.content_length h)))
