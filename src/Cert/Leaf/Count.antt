-- ===== src/Cert/Leaf/Count.antt =====
-- The counter of the entries in memory, while calls come one after the other.
use i_filter_imitation.Common.{
  ℕ, ◌+◌, ◌≤◌, List, [], ◌∷◌, length, Option, none, some, ltb, leb, Text, text_eq, ◌≡◌, refl, sym,
  ap, ◌∙◌, subst, arith, if_intro, option_intro, Bool-cases, inl, inr, text_eq→eq,
}
use i_filter_imitation.Cert.Leaf.{
  day, mem_cache_max, redis_key, MemEntry, CachedCert, garbled, cached, Cache, Inputs, load, delete,
  store_mem, drop_mem, evict_entries, evict_expired, set_redis, save_to_redis, del_redis, generate,
  get_new, get_cached, ask_redis, domain_of, get_cert,
}
use i_filter_imitation.Cert.Leaf.Invariant.{Op, op_get, op_evict, op_forget, step, run}

module _ {C : Type 0} where
  abbrev pub Distinct : List (Text × MemEntry C) → Type 0
  Distinct [] = Unit
  Distinct ((k, e) ∷ es) = (load k es ≡ none) × Distinct es

  -- The counter is the number of the entries and at most the limit, and no domain stands twice.
  pub record Counted (c : Cache C) : Type 0 where
    pub counted : c.count ≡ length c.mem
    pub bounded : c.count ≤ mem_cache_max
    pub distinct : Distinct c.mem

  delete_absent : (d : Text) (es : List (Text × MemEntry C)) → load d es ≡ none → delete d es ≡ es
  unfolding load delete
  delete_absent d [] h = refl
  delete_absent d ((k, e) ∷ es) h = ground (arith, delete_absent d es, h)

  load-delete : (d : Text) (es : List (Text × MemEntry C)) → load d (delete d es) ≡ none
  unfolding load delete
  load-delete d [] = refl
  load-delete d ((k, e) ∷ es) = ground (arith, load-delete d es)

  load-delete_other :
      (d k : Text) (es : List (Text × MemEntry C)) → load k es ≡ none → load k (delete d es) ≡ none
  unfolding load delete
  load-delete_other d k [] h = refl
  load-delete_other d k ((j, e) ∷ es) h = ground (arith, load-delete_other d k es, h)

  delete-Distinct :
      (d : Text) (es : List (Text × MemEntry C)) → Distinct es → Distinct (delete d es)
  unfolding delete
  delete-Distinct d [] u = tt
  delete-Distinct d ((k, e) ∷ es) (n, u) =
      if_intro Distinct (text_eq k d) _ _ (λ _. delete-Distinct d es u)
        (λ _. (load-delete_other d k es n, delete-Distinct d es u))

  length-delete :
      (d : Text) (es : List (Text × MemEntry C)) (e : MemEntry C)
      → Distinct es
      → load d es ≡ some e
      → length es ≡ length (delete d es) + 1
  unfolding load delete
  length-delete d [] e u h = absurd (ground (arith, h))
  length-delete d ((k, x) ∷ es) e (n, u) h = elim (Bool-cases (text_eq k d)) [
    | inl q ↦
        let same : delete d es ≡ es =
          delete_absent d es (subst (λ y. load y es ≡ none) (text_eq→eq k d q) n) in
        rw (q, same) (omega arith)
    | inr q ↦
        let shorter = length-delete d es e u (ground (arith, h, q)) in rw q (omega (arith, shorter))
  ]

  drop_mem-Counted :
      (d : Text) (e : MemEntry C) (c : Cache C)
      → load d c.mem ≡ some e
      → Counted c
      → Counted (drop_mem d c)
  unfolding drop_mem
  drop_mem-Counted d e c h s =
      let l = length-delete d c.mem e s.distinct h in
      record {
        counted = omega (arith, l, s.counted);
        bounded = omega (arith, s.bounded);
        distinct = delete-Distinct d c.mem s.distinct;
      }

  store_mem-Counted :
      (d : Text) (cert : C) (n : ℕ) (c : Cache C)
      → load d c.mem ≡ none
      → Counted c
      → Counted (store_mem d cert n c)
  unfolding store_mem
  store_mem-Counted d cert n c h s =
      if_intro Counted (leb mem_cache_max c.count) _ _ (λ _. s)
        (λ l. rw (delete_absent d c.mem h) (record {
          counted = omega (arith, s.counted);
          bounded = ground (arith, l);
          distinct = (h, s.distinct);
        }))

  -- The entries and the counter do not change with Redis.
  Counted-same : (c t : Cache C) → t.mem ≡ c.mem → t.count ≡ c.count → Counted c → Counted t
  Counted-same c t m n s = record {
    counted = n ∙ s.counted ∙ ap length (sym m);
    bounded = omega (arith, n, s.bounded);
    distinct = subst Distinct (sym m) s.distinct;
  }

  abbrev SameMem : Cache C → Cache C → Type 0
  SameMem c t = (t.mem ≡ c.mem) × (t.count ≡ c.count)

  save_to_redis-SameMem :
      (i : Inputs C) (key : Text) (cert : C) (n : ℕ) (c : Cache C)
      → SameMem c (save_to_redis i key cert n c)
  unfolding save_to_redis set_redis
  save_to_redis-SameMem i key cert n c =
      if_intro (SameMem c) (leb n (i.now + day)) _ _ (λ _. (refl, refl))
        (λ _. if_intro (SameMem c) i.sets _ _ (λ _. (refl, refl)) (λ _. (refl, refl)))

  del_redis-SameMem : (i : Inputs C) (key : Text) (c : Cache C) → SameMem c (del_redis i key c)
  unfolding del_redis set_redis
  del_redis-SameMem i key c =
      if_intro (SameMem c) i.deletes _ _ (λ _. (refl, refl)) (λ _. (refl, refl))

  -- A cache without an entry of the domain, whose counter is right.
  abbrev Misses : Text → Cache C → Type 0
  Misses d c = (load d c.mem ≡ none) × Counted c

  Misses-same : (d : Text) (c t : Cache C) → SameMem c t → Misses d c → Misses d t
  Misses-same d c t (m, n) (h, s) =
      (subst (λ es. load d es ≡ none) (sym m) h, Counted-same c t m n s)

  abbrev CountedAfter : Option C × Cache C → Type 0
  CountedAfter r = Counted r.1

  get_new-Counted :
      (i : Inputs C) (d : Text) (c : Cache C) → Misses d c → CountedAfter (get_new i d c)
  unfolding get_new
  get_new-Counted i d c s =
      option_intro CountedAfter (generate i d) _ _ (λ _. s.1)
        (λ (cert, n) _.
          let t = Misses-same d c _ (save_to_redis-SameMem i (redis_key d) cert n c) s in
          store_mem-Counted d cert n _ t.0 t.1)

  get_cached-Counted :
      (i : Inputs C) (d : Text) (v : CachedCert C) (c : Cache C)
      → Misses d c
      → CountedAfter (get_cached i d v c)
  unfolding get_cached
  get_cached-Counted i d garbled c s =
      get_new-Counted i d _ (Misses-same d c _ (del_redis-SameMem i (redis_key d) c) s)
  get_cached-Counted i d (cached cert n) c s =
      if_intro CountedAfter (ltb (i.now + day) n) _ _
        (λ _.
          option_intro CountedAfter cert _ _ (λ _. s.1) (λ x _. store_mem-Counted d x n c s.0 s.1))
        (λ _. get_new-Counted i d _ (Misses-same d c _ (del_redis-SameMem i (redis_key d) c) s))

  ask_redis-Counted :
      (i : Inputs C) (d : Text) (c : Cache C) → Misses d c → CountedAfter (ask_redis i d c)
  unfolding ask_redis
  ask_redis-Counted i d c s =
      if_intro CountedAfter i.gets _ _
        (λ _.
          option_intro CountedAfter (c.redis (redis_key d)) _ _ (λ _. get_new-Counted i d c s)
            (λ v _. get_cached-Counted i d v c s))
        (λ _. get_new-Counted i d c s)

  get_cert-Counted :
      (i : Inputs C) (name : Text) (c : Cache C) → Counted c → CountedAfter (get_cert i name c)
  unfolding get_cert
  get_cert-Counted i name c s =
      let d = domain_of name in
      option_intro CountedAfter (load d c.mem) _ _ (λ h. ask_redis-Counted i d c (h, s))
        (λ e h.
          if_intro CountedAfter (ltb (i.now + day) e.expires_at) _ _ (λ _. s)
            (λ _. ask_redis-Counted i d (drop_mem d c) (missing d c, drop_mem-Counted d e c h s)))
    where
      missing : (d : Text) (c : Cache C) → load d (drop_mem d c).mem ≡ none
      missing d c = unfold drop_mem in load-delete d c.mem

  evict_entries-load :
      (now : ℕ) (es : List (Text × MemEntry C)) (n : ℕ) (k : Text)
      → load k es ≡ none
      → load k (evict_entries now es n).0 ≡ none
  unfolding evict_entries load
  evict_entries-load now [] n k h = refl
  evict_entries-load now ((j, e) ∷ es) n k h = ground (arith, evict_entries-load now es n k, h)

  evict_entries-Counted :
      (now : ℕ) (es : List (Text × MemEntry C)) (n m : ℕ)
      → Distinct es
      → n ≡ length es + m
      → let r = evict_entries now es n in (r.1 ≡ length r.0 + m) × (r.1 ≤ n) × Distinct r.0
  unfolding evict_entries
  evict_entries-Counted now [] n m u h = (omega (arith, h), omega arith, tt)
  evict_entries-Counted now ((k, e) ∷ es) n m (f, u) h =
      let (c, b, d) = evict_entries-Counted now es n (m + 1) u (omega (arith, h)) in
      if_intro
        (λ (r : List (Text × MemEntry C) × ℕ). (r.1 ≡ length r.0 + m) × (r.1 ≤ n) × Distinct r.0)
        (ltb e.expires_at now) _ _ (λ _. (omega (arith, c), omega (arith, b), d))
        (λ _. (omega (arith, c), omega (arith, b), (evict_entries-load now es n k f, d)))

  step-Counted : (o : Op C) (c : Cache C) → Counted c → Counted (step o c)
  unfolding step evict_expired set_redis
  step-Counted (op_get i name) c s = get_cert-Counted i name c s
  step-Counted (op_evict now) c s =
      let (n, b, u) =
        evict_entries-Counted now c.mem c.count 0 s.distinct (omega (arith, s.counted)) in
      record { counted = omega (arith, n); bounded = omega (arith, b, s.bounded); distinct = u }
  step-Counted (op_forget d) c s = Counted-same c _ refl refl s

  -- As long as calls and evictions come one after the other, the counter is the number of the entries
  -- in memory, never more than 2000, and no domain stands twice.
  pub run-Counted : (os : List (Op C)) (c : Cache C) → Counted c → Counted (run os c)
  unfolding run
  run-Counted [] c s = s
  run-Counted (o ∷ os) c s = run-Counted os (step o c) (step-Counted o c s)
