-- ===== src/Cert/Leaf/Race.antt =====
-- The counter of the entries in memory, where several calls miss one domain at a time.
use i_filter_imitation.Common.{
  ℕ, ◌+◌, ◌≤◌, List, [], ◌∷◌, length, false, leb, Text, text_eq_refl, ◌≡◌, refl, ap, ◌∙◌, arith,
}
use i_filter_imitation.Cert.Leaf.{mem_cache_max, MemEntry, Cache, delete, store_mem}

module _ {C : Type 0} where
  -- Calls for one domain that have all looked for it in memory, and in Redis, before the first of them
  -- stores its certificate.
  unfoldable pub store_all : List (C × ℕ) → Text → Cache C → Cache C
  unfolding store_mem
  store_all [] d c = c
  store_all ((cert, n) ∷ rest) d c = store_all rest d (store_mem d cert n c)

  -- A store while there is room replaces the entry and counts one more.
  store_mem-again :
      (d : Text) (cert : C) (n : ℕ) (c : Cache C)
      → c.count + 1 ≤ mem_cache_max
      → delete d c.mem ≡ []
      → let t = store_mem d cert n c in
        (t.count ≡ c.count + 1) × (t.mem ≡ (d, record { cert = cert; expires_at = n }) ∷ [])
  unfolding store_mem
  store_mem-again d cert n c l h =
      let room : leb mem_cache_max c.count ≡ false = ground (arith, l) in rw (room, h) (refl, refl)

  delete-one : (d : Text) (e : MemEntry C) → delete d ((d, e) ∷ []) ≡ []
  unfolding delete
  delete-one d e = rw (text_eq_refl d) refl

  store_all-one :
      (made : List (C × ℕ)) (d : Text) (e : MemEntry C) (c : Cache C)
      → c.mem ≡ (d, e) ∷ []
      → c.count + length made ≤ mem_cache_max
      → let t = store_all made d c in (t.count ≡ c.count + length made) × (length t.mem ≡ 1)
  unfolding store_all
  store_all-one [] d e c h l = (omega arith, ap length h)
  store_all-one ((cert, n) ∷ made) d e c h l =
      let (k, m) =
        store_mem-again d cert n c (omega (arith, l)) (ap (delete d) h ∙ delete-one d e) in
      let (k', m') = store_all-one made d _ (store_mem d cert n c) m (omega (arith, k, l)) in
      (omega (arith, k, k'), m')

  delete-nil : (d : Text) → delete {C = C} d [] ≡ []
  unfolding delete
  delete-nil d = refl

  -- If several calls, at most 2000 in all, miss one domain in an empty cache before any of them stores
  -- its certificate, the counter is their number, but there is one entry.
  pub store_all-count :
      (first : C × ℕ) (made : List (C × ℕ)) (d : Text) (c : Cache C)
      → c.mem ≡ []
      → c.count ≡ 0
      → length made + 1 ≤ mem_cache_max
      → let t = store_all (first ∷ made) d c in (t.count ≡ length made + 1) × (length t.mem ≡ 1)
  unfolding store_all
  store_all-count (cert, n) made d c h z l =
      let (k, m) =
        store_mem-again d cert n c (omega (arith, z, l)) (ap (delete d) h ∙ delete-nil d) in
      let (k', m') = store_all-one made d _ (store_mem d cert n c) m (omega (arith, k, z, l)) in
      (omega (arith, k, k', z), m')
