-- ===== src/Scan/Job/Verdicts.antt =====
-- When a job ends as clean.
use mathlib.Core.Bool.{false≢true}
use i_filter_imitation.Common.{
  ℕ, ◌≤◌, List, [], length, Bool, true, false, Option, none, some, Text, ◌≡◌, refl, arith, ap, sym,
  ◌∙◌,
}
use i_filter_imitation.Scan.Status.{scanning, clean, ScanResult, Verdict, is_clean, merge_results}
use i_filter_imitation.Scan.Cache.{ResultCache, RedisSet, get_by_url}
use i_filter_imitation.Scan.Clamd.{Reading}
use i_filter_imitation.Scan.Clamd.Laws.{IsScanner}
use i_filter_imitation.Scan.Job.{
  Job, Body, ScanEnv, Ended, set_result, send, write_file, end_too_large, end_error, end_verdict,
  merged, scanned, close_up, run_scan,
}
use i_filter_imitation.Scan.Job.Cases.{Ways, run_scan_cases}

-- The evidence for a clean job: the URL's cached verdict is clean, or the scanner read the whole
-- body, which did not fail, and called it clean.
pub data Evidence (sha256 : Text → Text) (scan : Text → Bool → Reading) (env : ScanEnv)
    (body : Body) (url : Text) (cache : Option ResultCache) : Type 0 where
  from_cache :
      (c : ResultCache) (threat : Text)
      → cache ≡ some c
      → (get_by_url sha256 env.url_at env.url_reply url c).0 ≡ some (clean, threat)
      → Evidence sha256 scan env body url cache
  from_scan :
      (r : ScanResult)
      → (scan body.content body.broken).outcome ≡ some r
      → r.clean ≡ true
      → body.broken ≡ false
      → Evidence sha256 scan env body url cache

-- A clean job: the limit is kept, the temp file holds the whole body, and there is evidence.
pub record IsCleanScan (sha256 : Text → Text) (scan : Text → Bool → Reading) (env : ScanEnv)
    (body : Body) (url : Text) (cache : Option ResultCache) (e : Ended) : Type 0 where
  pub fits : length body.content ≤ env.limit
  pub stored : e.job.file ≡ body.content
  pub evidence : Evidence sha256 scan env body url cache

merged-clean :
    (v : Verdict) (h : Option Verdict) → is_clean (merged v h).0 ≡ true → is_clean v.0 ≡ true
unfolding merged merge_results
merged-clean (s, t) none h = h
merged-clean (s, t) (some (a, b)) h = ground arith

scanned-clean : (r : ScanResult) → is_clean (scanned r).0 ≡ true → r.clean ≡ true
scanned-clean r h = ground arith

end_verdict-clean :
    (v : Verdict) (job : Job) (cache : Option ResultCache) (writes : List RedisSet)
    → is_clean (end_verdict v job cache writes).job.status ≡ true
    → (is_clean v.0 ≡ true)
unfolding end_verdict send set_result
end_verdict-clean (s, t) job cache writes h = ground arith

end_verdict-file :
    (v : Verdict) (job : Job) (cache : Option ResultCache) (writes : List RedisSet)
    → (end_verdict v job cache writes).job.file ≡ job.file
unfolding end_verdict send set_result
end_verdict-file (s, t) job cache writes = ground arith

end_too_large-not_clean :
    (save_tail : Bool) (body : Body) (n : ℕ) (job : Job) (cache : Option ResultCache)
    → is_clean (end_too_large save_tail body n job cache).job.status ≡ false
unfolding end_too_large send set_result
end_too_large-not_clean save_tail body n job cache = refl

end_error-not_clean :
    (job : Job) (cache : Option ResultCache) → is_clean (end_error job cache).job.status ≡ false
unfolding end_error send set_result
end_error-not_clean job cache = refl

write_file-file : (s : Text) (job : Job) → (write_file s job).file ≡ s
unfolding write_file
write_file-file s job = refl

is_clean-eq : (v : Verdict) → is_clean v.0 ≡ true → v ≡ (clean, v.1)
is_clean-eq (s, t) h = ground arith

module _ (sha256 : Text → Text) (scan : Text → Bool → Reading) (save_tail : Bool) (env : ScanEnv)
    (body : Body) (steady : env.limit_after ≡ env.limit) (law : IsScanner scan) (job : Job)
    (cache : Option ResultCache) where
  abbrev Claim : Ended → Type 0
  Claim e = is_clean e.job.status ≡ true → IsCleanScan sha256 scan env body job.original_url cache e

  closes : (e : Ended) → Claim e → Claim (close_up e)
  unfolding close_up
  closes e claim h =
      let v = claim h in record { fits = v.fits; stored = v.stored; evidence = v.evidence }

  clean_ways : Ways sha256 scan save_tail env body (set_result scanning [] job) cache Claim
  unfolding set_result
  clean_ways = record {
    cut_off =
        λ seen c _ h. absurd (false≢true (sym (end_too_large-not_clean save_tail body _ _ c) ∙ h));
    failed = λ c h. absurd (false≢true (sym (end_error-not_clean _ c) ∙ h));
    hit = λ c v m c' known found short h. record {
      fits = short;
      stored = end_verdict-file _ _ c' [] ∙ write_file-file _ _;
      evidence =
          from_cache c v.1 known
            (found ∙ ap some (is_clean-eq v (merged-clean v m (end_verdict-clean _ _ c' [] h))));
    };
    answered = λ r m c writes replied sound short h. record {
      fits = short;
      stored = end_verdict-file _ _ c writes ∙ write_file-file _ _;
      evidence =
          from_scan r replied
            (scanned-clean r (merged-clean (scanned r) m (end_verdict-clean _ _ c writes h))) sound;
    };
  }

  -- If the limit does not change during the scan, a job ends as clean only where the body is within
  -- the limit, the temp file holds all of it, and either the cache calls its URL clean, or the
  -- scanner returned a clean result for the whole body, which did not fail.
  pub run_scan-clean :
      is_clean (run_scan sha256 scan save_tail env body job cache).job.status ≡ true
      → IsCleanScan sha256 scan env body job.original_url cache
          (run_scan sha256 scan save_tail env body job cache)
  run_scan-clean =
      run_scan_cases sha256 scan save_tail env body steady law job cache Claim closes
        (λ _ h. absurd (false≢true (sym (end_error-not_clean job cache) ∙ h))) clean_ways
