-- ===== src/Cert/Leaf/Invariant.antt =====
-- Which certificate a client is shown.
use i_filter_imitation.Common.{
  ℕ, ◌+◌, ◌<◌, List, [], ◌∷◌, Option, none, some, ltb, leb, Text, text_eq, text_eq→eq,
  text_eq-append, All, ◌≡◌, sym, ap, ◌∙◌, subst, arith, if_intro, option_intro, Option-cases,
  Bool-cases, inl, inr,
}
use i_filter_imitation.Cert.Leaf.{
  day, mem_cache_max, redis_key_prefix, redis_key, Template, template, MemEntry, CachedCert,
  garbled, cached, Cache, Inputs, load, delete, store_mem, drop_mem, evict_entries, evict_expired,
  set_redis, save_to_redis, del_redis, generate, get_new, get_cached, ask_redis, domain_of,
  get_cert,
}

-- What happens to the cache: a call, an eviction, or Redis forgets the certificate of a domain.
pub data Op (C : Type 0) : Type 0 where
  op_get : Inputs C → Text → Op C
  op_evict : ℕ → Op C
  op_forget : Text → Op C

module _ {C : Type 0} where
  unfoldable pub step : Op C → Cache C → Cache C
  step (op_get i name) c = (get_cert i name c).1
  step (op_evict now) c = evict_expired now c
  step (op_forget d) c = set_redis (redis_key d) none c

  unfoldable pub run : List (Op C) → Cache C → Cache C
  run [] c = c
  run (o ∷ os) c = run os (step o c)

module _ {C : Type 0} (reads : C → Template) where
  abbrev pub Fits : Text → C → ℕ → Type 0
  Fits d cert not_after = ((reads cert).dns_names ≡ d ∷ []) × ((reads cert).not_after ≡ not_after)

  abbrev pub EntryFits : Text × MemEntry C → Type 0
  EntryFits p = Fits p.0 p.1.cert p.1.expires_at

  abbrev pub RedisFits : Text → Option (CachedCert C) → Type 0
  RedisFits d none = Unit
  RedisFits d (some garbled) = Unit
  RedisFits d (some (cached none n)) = ⊥
  RedisFits d (some (cached (some cert) n)) = Fits d cert n

  -- Every certificate that is kept, in memory and in Redis, is for its domain and ends when the entry
  -- says; those in Redis can be parsed.
  pub record Sound (c : Cache C) : Type 0 where
    pub mem : All EntryFits c.mem
    pub redis : (d : Text) → RedisFits d (c.redis (redis_key d))

  -- What signing promises: the certificate is the template's.
  abbrev pub Lawful : Inputs C → Type 0
  Lawful i = (t : Template) (cert : C) → i.sign t ≡ some cert → reads cert ≡ t

  abbrev pub OpLawful : Op C → Type 0
  OpLawful (op_get i name) = Lawful i
  OpLawful (op_evict now) = Unit
  OpLawful (op_forget d) = Unit

  -- The certificate is for the domain alone and has more than a day left; there is none only if signing
  -- failed.
  abbrev pub Served : Inputs C → Text → Option C → Type 0
  Served i d none = (t : Template) × (i.sign t ≡ none)
  Served i d (some cert) =
      ((reads cert).dns_names ≡ d ∷ []) × (i.now + day < (reads cert).not_after)

  abbrev Goes : Inputs C → Text → Option C × Cache C → Type 0
  Goes i d r = Sound r.1 × Served i d r.0

  load-Fits :
      (d : Text) (es : List (Text × MemEntry C)) (e : MemEntry C)
      → All EntryFits es
      → load d es ≡ some e
      → Fits d e.cert e.expires_at
  unfolding load
  load-Fits d [] e a h = absurd (ground (arith, h))
  load-Fits d ((k, x) ∷ es) e (f, a) h = elim (Bool-cases (text_eq k d)) [
    | inl q ↦
        let same : x ≡ e = ground (arith, h, q) in
        subst (λ y. Fits d y.cert y.expires_at) same
          (subst (λ y. Fits y x.cert x.expires_at) (text_eq→eq k d q) f)
    | inr q ↦ load-Fits d es e a (ground (arith, h, q))
  ]

  delete-Fits :
      (d : Text) (es : List (Text × MemEntry C)) → All EntryFits es → All EntryFits (delete d es)
  unfolding delete
  delete-Fits d [] a = tt
  delete-Fits d ((k, x) ∷ es) (f, a) =
      let rest = delete-Fits d es a in
      if_intro (All EntryFits) (text_eq k d) _ _ (λ _. rest) (λ _. (f, rest))

  drop_mem-Sound : (d : Text) (c : Cache C) → Sound c → Sound (drop_mem d c)
  unfolding drop_mem
  drop_mem-Sound d c s = record { mem = delete-Fits d c.mem s.mem; redis = s.redis }

  store_mem-Sound :
      (d : Text) (cert : C) (n : ℕ) (c : Cache C)
      → Fits d cert n
      → Sound c
      → Sound (store_mem d cert n c)
  unfolding store_mem
  store_mem-Sound d cert n c f s =
      if_intro Sound (leb mem_cache_max c.count) _ _ (λ _. s)
        (λ _. record { mem = (f, delete-Fits d c.mem s.mem); redis = s.redis })

  set_redis-Sound :
      (d : Text) (v : Option (CachedCert C)) (c : Cache C)
      → RedisFits d v
      → Sound c
      → Sound (set_redis (redis_key d) v c)
  unfolding set_redis
  set_redis-Sound d v c f s = record {
    mem = s.mem;
    redis = λ k.
        if_intro (RedisFits k) (text_eq (redis_key k) (redis_key d)) _ _
          (λ q.
            subst (λ x. RedisFits x v)
              (sym (text_eq→eq k d (sym (text_eq-append redis_key_prefix k d) ∙ q))) f)
          (λ _. s.redis k);
  }

  save_to_redis-Sound :
      (i : Inputs C) (d : Text) (cert : C) (n : ℕ) (c : Cache C)
      → Fits d cert n
      → Sound c
      → Sound (save_to_redis i (redis_key d) cert n c)
  unfolding save_to_redis
  save_to_redis-Sound i d cert n c f s =
      if_intro Sound (leb n (i.now + day)) _ _ (λ _. s)
        (λ _. if_intro Sound i.sets _ _ (λ _. set_redis-Sound d _ c f s) (λ _. s))

  del_redis-Sound :
      (i : Inputs C) (d : Text) (c : Cache C) → Sound c → Sound (del_redis i (redis_key d) c)
  unfolding del_redis
  del_redis-Sound i d c s =
      if_intro Sound i.deletes _ _ (λ _. set_redis-Sound d none c tt s) (λ _. s)

  generate-none : (i : Inputs C) (d : Text) → generate i d ≡ none → i.sign (template d i.now) ≡ none
  unfolding generate
  generate-none i d h = ground (arith, h)

  generate-some :
      (i : Inputs C) (d : Text) (cert : C) (n : ℕ)
      → Lawful i
      → generate i d ≡ some (cert, n)
      → Fits d cert n × (i.now + day < n)
  unfolding generate template
  generate-some i d cert n law h = elim (Option-cases (i.sign (template d i.now))) [
    | inl e ↦ absurd (ground (arith, h, e))
    | inr (x, e) ↦
        let same : x ≡ cert = ground (arith, h, e) in
        let ends : (template d i.now).not_after ≡ n = ground (arith, h, e) in
        let t : reads cert ≡ template d i.now =
          subst (λ y. reads y ≡ template d i.now) same (law _ x e) in
        ((ap (λ y. y.dns_names) t, ap (λ y. y.not_after) t ∙ ends), omega (arith, ends))
  ]

  get_new-Goes :
      (i : Inputs C) (d : Text) (c : Cache C) → Lawful i → Sound c → Goes i d (get_new i d c)
  unfolding get_new
  get_new-Goes i d c law s =
      option_intro (Goes i d) (generate i d) _ _ (λ h. (s, (template d i.now, generate-none i d h)))
        (λ (cert, n) h.
          let (f, l) = generate-some i d cert n law h in
          (
            store_mem-Sound d cert n _ f (save_to_redis-Sound i d cert n c f s),
            (f.0, omega (arith, f.1, l)),
          ))

  get_cached-Goes :
      (i : Inputs C) (d : Text) (v : CachedCert C) (c : Cache C)
      → Lawful i
      → RedisFits d (some v)
      → Sound c
      → Goes i d (get_cached i d v c)
  unfolding get_cached
  get_cached-Goes i d garbled c law f s = get_new-Goes i d _ law (del_redis-Sound i d c s)
  get_cached-Goes i d (cached none n) c law f s = absurd f
  get_cached-Goes i d (cached (some x) n) c law f s =
      if_intro (Goes i d) (ltb (i.now + day) n) _ _
        (λ h. (store_mem-Sound d x n c f s, (f.0, ground (arith, h, f.1))))
        (λ _. get_new-Goes i d _ law (del_redis-Sound i d c s))

  ask_redis-Goes :
      (i : Inputs C) (d : Text) (c : Cache C) → Lawful i → Sound c → Goes i d (ask_redis i d c)
  unfolding ask_redis
  ask_redis-Goes i d c law s =
      if_intro (Goes i d) i.gets _ _
        (λ _.
          option_intro (Goes i d) (c.redis (redis_key d)) _ _ (λ _. get_new-Goes i d c law s)
            (λ v e. get_cached-Goes i d v c law (subst (RedisFits d) e (s.redis d)) s))
        (λ _. get_new-Goes i d c law s)

  get_cert-Goes :
      (i : Inputs C) (name : Text) (c : Cache C)
      → Lawful i
      → Sound c
      → Goes i (domain_of name) (get_cert i name c)
  unfolding get_cert
  get_cert-Goes i name c law s =
      let d = domain_of name in
      option_intro (Goes i d) (load d c.mem) _ _ (λ _. ask_redis-Goes i d c law s)
        (λ e q.
          let f = load-Fits d c.mem e s.mem q in
          if_intro (Goes i d) (ltb (i.now + day) e.expires_at) _ _
            (λ h. (s, (f.0, ground (arith, h, f.1))))
            (λ _. ask_redis-Goes i d (drop_mem d c) law (drop_mem-Sound d c s)))

  evict_entries-Fits :
      (now : ℕ) (es : List (Text × MemEntry C)) (n : ℕ)
      → All EntryFits es
      → All EntryFits (evict_entries now es n).0
  unfolding evict_entries
  evict_entries-Fits now [] n a = tt
  evict_entries-Fits now ((k, e) ∷ es) n (f, a) =
      let rest = evict_entries-Fits now es n a in
      if_intro (λ (r : List (Text × MemEntry C) × ℕ). All EntryFits r.0) (ltb e.expires_at now) _ _
        (λ _. rest) (λ _. (f, rest))

  step-Sound : (o : Op C) (c : Cache C) → OpLawful o → Sound c → Sound (step o c)
  unfolding step evict_expired
  step-Sound (op_get i name) c law s = (get_cert-Goes i name c law s).0
  step-Sound (op_evict now) c law s = record {
    mem = evict_entries-Fits now c.mem c.count s.mem;
    redis = s.redis;
  }
  step-Sound (op_forget d) c law s = set_redis-Sound d none c tt s

  run-Sound : (os : List (Op C)) (c : Cache C) → All OpLawful os → Sound c → Sound (run os c)
  unfolding run
  run-Sound [] c law s = s
  run-Sound (o ∷ os) c (l, law) s = run-Sound os (step o c) law (step-Sound o c l s)

  -- Where signing makes the certificate of the template that it is given, or fails: after any calls,
  -- evictions and losses in Redis, from a sound cache such as the empty one, the next client is shown a
  -- certificate for the domain it asks for and for no other, with more than a day left, or signing has
  -- failed.
  pub get_cert-Served :
      (os : List (Op C)) (i : Inputs C) (name : Text) (c : Cache C)
      → All OpLawful os
      → Lawful i
      → Sound c
      → Served i (domain_of name) (get_cert i name (run os c)).0
  get_cert-Served os i name c laws law s =
      (get_cert-Goes i name (run os c) law (run-Sound os c laws s)).1
