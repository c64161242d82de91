-- ===== src/Scan/Job/Threat.antt =====
-- When a job ends as infected, and with which threat.
use mathlib.Core.Bool.{false≢true}
use i_filter_imitation.Common.{
  ℕ, ◌+◌, ◌≤◌, List, [], length, take, ltb, take_all, length-take, Bool, true, false, Option, none,
  some, Text, ◌≡◌, sym, arith, ap, ap₂, ◌∙◌, if_intro,
}
use i_filter_imitation.Scan.Status.{scanning, ScanResult, Verdict, is_infected, merge_results}
use i_filter_imitation.Scan.Cache.{ResultCache, RedisSet, get_by_url}
use i_filter_imitation.Scan.Clamd.{Reading}
use i_filter_imitation.Scan.Job.{
  Job, Body, ScanEnv, Ended, set_result, send, limited, fails, end_verdict, merged, scanned,
  conclude, normal_scan, scan_open, close_up, run_scan,
}
use i_filter_imitation.Scan.Job.Cases.{fails_whole}

-- The job ended as infected with this threat.
abbrev pub Tells : Text → Ended → Type 0
Tells threat e = (is_infected e.job.status ≡ true) × (e.job.threat_name ≡ threat)

-- The cache is off or has no verdict for the URL.
abbrev pub Unknown : (Text → Text) → ScanEnv → Text → Option ResultCache → Type 0
Unknown sha256 env url none = Unit
Unknown sha256 env url (some c) = (get_by_url sha256 env.url_at env.url_reply url c).0 ≡ none

merged_infected :
    (r : ScanResult) (h : Option Verdict)
    → r.clean ≡ false
    → (is_infected (merged (scanned r) h).0 ≡ true) × ((merged (scanned r) h).1 ≡ r.threat_name)
unfolding merged merge_results
merged_infected r none h = ground arith
merged_infected r (some (a, b)) h = ground arith

end_verdict-Tells :
    (v : Verdict) (job : Job) (cache : Option ResultCache) (writes : List RedisSet)
    → is_infected v.0 ≡ true
    → Tells v.1 (end_verdict v job cache writes)
unfolding end_verdict send set_result
end_verdict-Tells (s, t) job cache writes h = ground arith

module _ (sha256 : Text → Text) (scan : Text → Bool → Reading) (env : ScanEnv) (r : ScanResult)
    (bad : r.clean ≡ false) where
  conclude-Tells :
      (got : Text) (job : Job) (cache : Option ResultCache)
      → Tells r.threat_name (conclude sha256 scan env got job cache r)
  unfolding conclude merged
  conclude-Tells got job none =
      let (i, t) = end_verdict-Tells (scanned r) job none [] (merged_infected r none bad).0 in
      (i, t)
  conclude-Tells got job (some cache) =
      let (i, t) = end_verdict-Tells (merged (scanned r) _) job _ _ (merged_infected r _ bad).0 in
      (i, t ∙ (merged_infected r _ bad).1)

  -- The scanner is asked about the whole of a short body, and its verdict is concluded from.
  normal_scan-Tells :
      (save_tail : Bool) (body : Body) (job : Job) (cache : Option ResultCache)
      → env.limit_after ≡ env.limit
      → length body.content ≤ env.limit
      → (scan body.content body.broken).outcome ≡ some r
      → Tells r.threat_name (normal_scan sha256 scan save_tail env body job cache)
  unfolding normal_scan
  normal_scan-Tells save_tail body job cache steady short found =
      rw (fits (scan (limited env body) (fails env body)).consumed, answered, normal_scan)
        (conclude-Tells _ _ cache)
    where
      limited_short : limited env body ≡ body.content
      limited_short = unfold limited in take_all (env.limit + 1) body.content (omega arith)

      fits : (n : ℕ) → ltb env.limit_after (length (take n (limited env body))) ≡ false
      fits n = ground (arith, length-take n (limited env body), ap length limited_short)

      answered : (scan (limited env body) (fails env body)).outcome ≡ some r
      answered = ap₂ (λ s b. (scan s b).outcome) limited_short (fails_whole env body short) ∙ found

  scan_open-Tells :
      (save_tail : Bool) (body : Body) (job : Job) (cache : Option ResultCache)
      → Unknown sha256 env job.original_url cache
      → env.limit_after ≡ env.limit
      → length body.content ≤ env.limit
      → (scan body.content body.broken).outcome ≡ some r
      → Tells r.threat_name (scan_open sha256 scan save_tail env body job cache)
  unfolding scan_open
  scan_open-Tells save_tail body job none _ steady short found =
      normal_scan-Tells save_tail body job none steady short found
  scan_open-Tells save_tail body job (some c) new steady short found =
      rw (new, scan_open) (normal_scan-Tells save_tail body job (some _) steady short found)

  -- What the scanner finds in a body within the limit is the result of the job, whose URL has no cached
  -- verdict, whatever the cache knows of the hash.
  pub run_scan-Tells :
      (save_tail : Bool) (body : Body) (job : Job) (cache : Option ResultCache)
      → env.opens ≡ true
      → Unknown sha256 env job.original_url cache
      → env.limit_after ≡ env.limit
      → length body.content ≤ env.limit
      → (scan body.content body.broken).outcome ≡ some r
      → Tells r.threat_name (run_scan sha256 scan save_tail env body job cache)
  unfolding run_scan close_up set_result
  run_scan-Tells save_tail body job cache opens new steady short found =
      if_intro (λ (e : Ended). Tells r.threat_name (close_up e)) env.opens _ _
        (λ _.
          scan_open-Tells save_tail body (set_result scanning [] job) cache new steady short found)
        (λ shut. absurd (false≢true (sym shut ∙ opens)))
