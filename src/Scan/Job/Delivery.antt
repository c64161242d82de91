-- ===== src/Scan/Job/Delivery.antt =====
-- What a command-line client can be given: the temp file, and behind it the tail of the body.
use mathlib.Core.Bool.{false≢true}
use i_filter_imitation.Common.{
  List, [], ◌++◌, append-nil, length, drop, Bool, true, false, Option, none, some, if◌then◌else◌,
  Text, ◌≡◌, arith, sym, ◌∙◌,
}
use i_filter_imitation.Scan.Status.{ScanStatus, scanning, error, Verdict}
use i_filter_imitation.Scan.Cache.{ResultCache, RedisSet}
use i_filter_imitation.Scan.Clamd.{Reading}
use i_filter_imitation.Scan.Clamd.Laws.{IsScanner}
use i_filter_imitation.Scan.Job.{
  Job, Body, ScanEnv, Ended, set_result, send, write_file, limited, end_too_large, end_error,
  end_verdict, merged, scanned, close_up, run_scan,
}
use i_filter_imitation.Scan.Job.Cases.{Ways, run_scan_cases}

abbrev pub is_error : ScanStatus → Bool
is_error error = true
is_error _ = false

abbrev pub tail_of : Option Text → Text
tail_of none = []
tail_of (some t) = t

abbrev pub delivered : Ended → Text
delivered e = e.job.file ++ tail_of e.job.tail_body

-- Everything, or after a scan error what fits the limit and one byte.
abbrev pub Delivers : ScanEnv → Body → Ended → Type 0
Delivers env body e =
    delivered e ≡ (if is_error e.job.status then limited env body else body.content)

end_too_large-Delivers :
    (env : ScanEnv) (body : Body) (seen : Text) (job : Job) (cache : Option ResultCache)
    → seen ++ drop (length seen) body.content ≡ body.content
    → Delivers env body (end_too_large true body (length seen) (write_file seen job) cache)
unfolding end_too_large send set_result write_file
end_too_large-Delivers env body seen job cache e = e

end_error-Delivers :
    (env : ScanEnv) (body : Body) (job : Job) (cache : Option ResultCache)
    → job.tail_body ≡ none
    → Delivers env body (end_error (write_file (limited env body) job) cache)
unfolding end_error send set_result write_file
end_error-Delivers env body job cache no_tail = rw no_tail (append-nil (limited env body))

end_verdict-tail :
    (v : Verdict) (job : Job) (cache : Option ResultCache) (writes : List RedisSet)
    → ((end_verdict v job cache writes).job.tail_body ≡ job.tail_body)
      × (is_error (end_verdict v job cache writes).job.status ≡ false)
unfolding end_verdict send set_result
end_verdict-tail (s, t) job cache writes = ground arith

end_verdict-file :
    (v : Verdict) (job : Job) (cache : Option ResultCache) (writes : List RedisSet)
    → (end_verdict v job cache writes).job.file ≡ job.file
unfolding end_verdict send set_result
end_verdict-file (s, t) job cache writes = ground arith

end_verdict-Delivers :
    (env : ScanEnv) (body : Body) (v : Verdict) (job : Job) (cache : Option ResultCache)
    (writes : List RedisSet)
    → job.tail_body ≡ none
    → Delivers env body (end_verdict v (write_file body.content job) cache writes)
end_verdict-Delivers env body v job cache writes no_tail =
    let sealed = write_file body.content job in
    rw
      (
        end_verdict-file v sealed cache writes,
        (end_verdict-tail v sealed cache writes).0,
        (end_verdict-tail v sealed cache writes).1,
      )
      (unfold write_file in rw no_tail (append-nil body.content))

close_up-Delivers :
    (env : ScanEnv) (body : Body) (e : Ended) → Delivers env body e → Delivers env body (close_up e)
unfolding close_up
close_up-Delivers env body e d = d

module _ (sha256 : Text → Text) (scan : Text → Bool → Reading) (env : ScanEnv) (body : Body)
    (steady : env.limit_after ≡ env.limit) (law : IsScanner scan) (job : Job)
    (cache : Option ResultCache) (no_tail : job.tail_body ≡ none) where
  delivery_ways :
      Ways sha256 scan true env body (set_result scanning [] job) cache (Delivers env body)
  unfolding set_result
  delivery_ways = record {
    cut_off = λ seen c e. end_too_large-Delivers env body seen _ c e;
    failed = λ c. end_error-Delivers env body _ c no_tail;
    hit = λ c v m c' _ _ _. end_verdict-Delivers env body (merged v m) _ c' [] no_tail;
    answered = λ r m c writes _ _ _.
        end_verdict-Delivers env body (merged (scanned r) m) _ c writes no_tail;
  }

  -- If the temp file opens and the limit does not change during the scan, the temp file and the tail
  -- handed over for a command-line client are together the whole body, except after a scan error:
  -- then they are the first bytes of the body, at most one more than the limit.
  pub run_scan-Delivers :
      env.opens ≡ true → Delivers env body (run_scan sha256 scan true env body job cache)
  run_scan-Delivers opens =
      run_scan_cases sha256 scan true env body steady law job cache (Delivers env body)
        (close_up-Delivers env body) (λ shut. absurd (false≢true (sym shut ∙ opens))) delivery_ways
