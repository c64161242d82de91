-- ===== src/Scan/Job/Cases.antt =====
-- The ways in which a scan ends, for a lawful scanner and a limit that does not change meanwhile.
use i_filter_imitation.Common.{
  ℕ, suc, zero, ◌+◌, ◌≤◌, List, [], ◌∷◌, ◌++◌, length, take, drop, take_all, length-take, Bool,
  false, Option, none, some, ltb, Text, ◌≡◌, refl, arith, ap, ap₂, sym, ◌∙◌, subst, if_intro,
  option_intro,
}
use i_filter_imitation.Scan.Status.{scanning, ScanResult, Verdict}
use i_filter_imitation.Scan.Cache.{ResultCache, RedisSet, get_by_url, get_by_hash}
use i_filter_imitation.Scan.Clamd.{Reading}
use i_filter_imitation.Scan.Clamd.Laws.{IsScanner}
use i_filter_imitation.Scan.Job.{
  Job, Body, ScanEnv, Ended, set_result, write_file, limited, fails, end_too_large, end_error,
  end_verdict, merged, scanned, cached_scan, conclude, normal_scan, scan_open, close_up, run_scan,
}

take-append-drop-length :
    {A : Type 0} (n m : ℕ) (xs : List A)
    → take n (take m xs) ++ drop (length (take n (take m xs))) xs ≡ xs
take-append-drop-length zero m xs = refl
take-append-drop-length (suc n) zero xs = refl
take-append-drop-length (suc n) (suc m) [] = refl
take-append-drop-length (suc n) (suc m) (x ∷ xs) = ap (◌∷◌ x) (take-append-drop-length n m xs)

take-length-take :
    {A : Type 0} (m : ℕ) (xs : List A) → take m xs ++ drop (length (take m xs)) xs ≡ xs
take-length-take zero xs = refl
take-length-take (suc m) [] = refl
take-length-take (suc m) (x ∷ xs) = ap (◌∷◌ x) (take-length-take m xs)

-- A stream within the limit was not cut.
limited_whole :
    (env : ScanEnv) (body : Body)
    → env.limit_after ≡ env.limit
    → ltb env.limit_after (length (limited env body)) ≡ false
    → (limited env body ≡ body.content) × (length body.content ≤ env.limit)
unfolding limited
limited_whole env body steady h =
    let short : length body.content ≤ env.limit =
      ground (arith, length-take (env.limit + 1) body.content) in
    (take_all (env.limit + 1) body.content (omega arith), short)

pub fails_whole :
    (env : ScanEnv) (body : Body) → length body.content ≤ env.limit → fails env body ≡ body.broken
unfolding fails
fails_whole env body h = ground arith

-- What is to be shown of each way to end, for a predicate `P`.
pub record Ways (sha256 : Text → Text) (scan : Text → Bool → Reading) (save_tail : Bool)
    (env : ScanEnv) (body : Body) (job : Job) (known : Option ResultCache) (P : Ended → Type 0)
    : Type 0 where
  pub cut_off :
      (seen : Text) (cache : Option ResultCache)
      → seen ++ drop (length seen) body.content ≡ body.content
      → P (end_too_large save_tail body (length seen) (write_file seen job) cache)
  pub failed :
      (cache : Option ResultCache) → P (end_error (write_file (limited env body) job) cache)
  pub hit :
      (c : ResultCache) (v : Verdict) (h : Option Verdict) (cache : Option ResultCache)
      → known ≡ some c
      → (get_by_url sha256 env.url_at env.url_reply job.original_url c).0 ≡ some v
      → length body.content ≤ env.limit
      → P (end_verdict (merged v h) (write_file body.content job) cache [])
  pub answered :
      (r : ScanResult) (h : Option Verdict) (cache : Option ResultCache) (writes : List RedisSet)
      → (scan body.content body.broken).outcome ≡ some r
      → body.broken ≡ false
      → length body.content ≤ env.limit
      → P (end_verdict (merged (scanned r) h) (write_file body.content job) cache writes)

module _ (sha256 : Text → Text) (scan : Text → Bool → Reading) (save_tail : Bool) (env : ScanEnv)
    (body : Body) (steady : env.limit_after ≡ env.limit) (law : IsScanner scan) (job : Job)
    (known : Option ResultCache) (P : Ended → Type 0)
    (ways : Ways sha256 scan save_tail env body job known P) where
  cached_scan_cases :
      (c cache : ResultCache) (v : Verdict)
      → known ≡ some c
      → (get_by_url sha256 env.url_at env.url_reply job.original_url c).0 ≡ some v
      → P (cached_scan sha256 scan save_tail env body job cache v)
  unfolding cached_scan
  cached_scan_cases c cache v is_known found =
      let got = limited env body in
      let asked = get_by_hash sha256 env.hash_at env.hash_reply (sha256 got) cache in
      if_intro P (ltb env.limit_after (length got)) _ _
        (λ _. ways.cut_off got _ (unfold limited in take-length-take (env.limit + 1) body.content))
        (λ small.
          let (whole, short) = limited_whole env body steady small in
          subst (λ s. P (end_verdict (merged v asked.0) (write_file s job) (some asked.1) []))
            (sym whole) (ways.hit c v asked.0 (some asked.1) is_known found short))

  conclude_cases :
      (got : Text) (cache : Option ResultCache) (r : ScanResult)
      → (scan body.content body.broken).outcome ≡ some r
      → body.broken ≡ false
      → length body.content ≤ env.limit
      → P (conclude sha256 scan env got (write_file body.content job) cache r)
  unfolding conclude merged
  conclude_cases got none r e sound short = ways.answered r none none [] e sound short
  conclude_cases got (some cache) r e sound short = ways.answered r _ _ _ e sound short

  normal_scan_cases :
      (cache : Option ResultCache) → P (normal_scan sha256 scan save_tail env body job cache)
  unfolding normal_scan
  normal_scan_cases cache =
      let got = limited env body in
      let reading = scan got (fails env body) in
      let seen = take reading.consumed got in
      if_intro P (ltb env.limit_after (length seen)) _ _
        (λ _.
          ways.cut_off seen cache (
            unfold limited in
            take-append-drop-length reading.consumed (env.limit + 1) body.content))
        (λ small.
          option_intro P reading.outcome _ _ (λ _. ways.failed cache)
            (λ r replied.
              let (all_read, sound) = law.whole got (fails env body) r replied in
              let seen_all : seen ≡ got = take_all reading.consumed got (omega arith) in
              let (whole, short) =
                limited_whole env body steady
                  (ap (λ s. ltb env.limit_after (length s)) (sym seen_all) ∙ small) in
              let unbroken = sym (fails_whole env body short) in
              subst (λ s. P (conclude sha256 scan env seen (write_file s job) cache r))
                (sym (seen_all ∙ whole))
                (conclude_cases seen cache r
                  (ap₂ (λ s b. (scan s b).outcome) (sym whole) unbroken ∙ replied)
                  (unbroken ∙ sound) short)))

  scan_open_cases :
      (cache : Option ResultCache)
      → known ≡ cache
      → P (scan_open sha256 scan save_tail env body job cache)
  unfolding scan_open
  scan_open_cases none e = normal_scan_cases none
  scan_open_cases (some c) e =
      option_intro P (get_by_url sha256 env.url_at env.url_reply job.original_url c).0 _ _
        (λ _. normal_scan_cases _) (λ v found. cached_scan_cases c _ v e found)

module _ (sha256 : Text → Text) (scan : Text → Bool → Reading) (save_tail : Bool) (env : ScanEnv)
    (body : Body) (steady : env.limit_after ≡ env.limit) (law : IsScanner scan) (job : Job)
    (cache : Option ResultCache) where
  -- To show `P` of a finished scan, show it of each way to end, and that closing up keeps it.
  pub run_scan_cases :
      (P : Ended → Type 0)
      → ((e : Ended) → P e → P (close_up e))
      → (env.opens ≡ false → P (end_error job cache))
      → Ways sha256 scan save_tail env body (set_result scanning [] job) cache P
      → P (run_scan sha256 scan save_tail env body job cache)
  unfolding run_scan
  run_scan_cases P closes unopened ways = closes _ (
      if_intro P env.opens _ _
        (λ _.
          scan_open_cases sha256 scan save_tail env body steady law (set_result scanning [] job)
            cache P ways cache refl)
        unopened)
