-- ===== src/Scan/Job/Protocol.antt =====
-- What the readers of a job rely on: one result, sent before uploadDone is closed, and a body that
-- is closed unless its rest was handed over.
use i_filter_imitation.Common.{
  ℕ, List, [], ◌∷◌, length, take, Bool, true, false, not, Option, none, some, ltb, if◌then◌else◌,
  Text, ◌≡◌, refl, arith, if_intro, option_intro,
}
use i_filter_imitation.Scan.Status.{
  ScanStatus, pending, scanning, ScanResult, Verdict, is_clean, is_infected,
}
use i_filter_imitation.Scan.Cache.{ResultCache, RedisSet, get_by_url}
use i_filter_imitation.Scan.Clamd.{Reading}
use i_filter_imitation.Scan.Job.{
  Job, JobEvent, result_sent, upload_done, body_closed, Body, ScanEnv, Ended, passing, set_result,
  send, write_file, limited, fails, end_too_large, end_error, end_verdict, scanned, cached_scan,
  conclude, normal_scan, scan_open, close_up, run_scan,
}

abbrev pub is_over : ScanStatus → Bool
is_over pending = false
is_over scanning = false
is_over _ = true

abbrev pub is_none : Option Text → Bool
is_none none = true
is_none (some _) = false

-- A job that nothing has been sent for yet.
pub record IsNew (job : Job) : Type 0 where
  pub silent : job.events ≡ []
  pub no_tail : job.tail_body ≡ none

-- The scan is over and `result` was sent, followed by the events `after`.
pub record Reports (after : List JobEvent) (e : Ended) : Type 0 where
  pub result : ScanResult
  pub order : e.job.events ≡ result_sent result ∷ after
  pub agrees : result.clean ≡ not (is_infected e.job.status)
  pub over : is_over e.job.status ≡ true
  pub handed_over : e.owns_body ≡ is_none e.job.tail_body

end_too_large-Reports :
    (save_tail : Bool) (body : Body) (n : ℕ) (job : Job) (cache : Option ResultCache)
    → IsNew job
    → Reports [] (end_too_large save_tail body n job cache)
unfolding end_too_large send set_result
end_too_large-Reports true body n job cache v = record {
  result = passing;
  order = ground arith;
  agrees = refl;
  over = refl;
  handed_over = refl;
}
end_too_large-Reports false body n job cache v = record {
  result = passing;
  order = ground arith;
  agrees = refl;
  over = refl;
  handed_over = ground arith;
}

end_error-Reports :
    (job : Job) (cache : Option ResultCache) → IsNew job → Reports [] (end_error job cache)
unfolding end_error send set_result
end_error-Reports job cache v = record {
  result = passing;
  order = ground arith;
  agrees = refl;
  over = refl;
  handed_over = ground arith;
}

end_verdict-Reports :
    (v : Verdict) (job : Job) (cache : Option ResultCache) (writes : List RedisSet)
    → IsNew job
    → Reports [] (end_verdict v job cache writes)
unfolding end_verdict send set_result
end_verdict-Reports (status, threat) job cache writes v = record {
  result = record { clean = is_clean status; threat_name = threat };
  order = ground arith;
  agrees = ground arith;
  over = ground arith;
  handed_over = ground arith;
}

write_file-IsNew : (s : Text) (job : Job) → IsNew job → IsNew (write_file s job)
unfolding write_file
write_file-IsNew s job v = record { silent = v.silent; no_tail = v.no_tail }

module _ (sha256 : Text → Text) (scan : Text → Bool → Reading) (save_tail : Bool) (env : ScanEnv)
    (body : Body) where
  cached_scan-Reports :
      (job : Job) (cache : ResultCache) (verdict : Verdict)
      → IsNew job
      → Reports [] (cached_scan sha256 scan save_tail env body job cache verdict)
  unfolding cached_scan
  cached_scan-Reports job cache verdict v =
      if_intro (Reports []) (ltb env.limit_after (length (limited env body))) _ _
        (λ _. end_too_large-Reports save_tail body _ _ _ (write_file-IsNew _ job v))
        (λ _. end_verdict-Reports _ _ _ [] (write_file-IsNew _ job v))

  conclude-Reports :
      (got : Text) (job : Job) (cache : Option ResultCache) (r : ScanResult)
      → IsNew job
      → Reports [] (conclude sha256 scan env got job cache r)
  unfolding conclude
  conclude-Reports got job none r v = end_verdict-Reports (scanned r) job none [] v
  conclude-Reports got job (some cache) r v = end_verdict-Reports _ job _ _ v

  normal_scan-Reports :
      (job : Job) (cache : Option ResultCache)
      → IsNew job
      → Reports [] (normal_scan sha256 scan save_tail env body job cache)
  unfolding normal_scan
  normal_scan-Reports job cache v =
      let reading = scan (limited env body) (fails env body) in
      if_intro (Reports [])
        (ltb env.limit_after (length (take reading.consumed (limited env body)))) _ _
        (λ _. end_too_large-Reports save_tail body _ _ cache (write_file-IsNew _ job v))
        (λ _.
          option_intro (Reports []) reading.outcome _ _
            (λ _. end_error-Reports _ cache (write_file-IsNew _ job v))
            (λ r _. conclude-Reports _ _ cache r (write_file-IsNew _ job v)))

  scan_open-Reports :
      (job : Job) (cache : Option ResultCache)
      → IsNew job
      → Reports [] (scan_open sha256 scan save_tail env body job cache)
  unfolding scan_open
  scan_open-Reports job none v = normal_scan-Reports job none v
  scan_open-Reports job (some cache) v =
      option_intro (Reports [])
        (get_by_url sha256 env.url_at env.url_reply job.original_url cache).0 _ _
        (λ _. normal_scan-Reports job _ v) (λ verdict _. cached_scan-Reports job _ verdict v)

  -- A scan of a new job ends with exactly one result, sent before uploadDone is closed; the result
  -- is clean unless the job's status is infected, the status is a final one, and the body is closed
  -- last unless its rest was handed over as the job's tail.
  pub run_scan-Reports :
      (job : Job) (cache : Option ResultCache)
      → IsNew job
      → let e = run_scan sha256 scan save_tail env body job cache in
        Reports (upload_done ∷ (if e.owns_body then body_closed ∷ [] else [])) e
  unfolding run_scan close_up set_result
  run_scan-Reports job cache v = closed _ (
      if_intro (Reports []) env.opens _ _
        (λ _. scan_open-Reports _ cache (record { silent = v.silent; no_tail = v.no_tail }))
        (λ _. end_error-Reports job cache v))
    where
      closed :
          (e : Ended)
          → Reports [] e
          → Reports (upload_done ∷ (if e.owns_body then body_closed ∷ [] else [])) (close_up e)
      closed e r = record {
        result = r.result;
        order = ground (arith, r.order);
        agrees = r.agrees;
        over = r.over;
        handed_over = r.handed_over;
      }
