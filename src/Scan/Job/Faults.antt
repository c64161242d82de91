-- ===== src/Scan/Job/Faults.antt =====
-- Two ways in which a file is passed on that is not the whole body.
use i_filter_imitation.Common.{
  ℕ, ◌+◌, ◌≤◌, ◌<◌, [], ◌∷◌, append-nil, length, take, length-take, Bool, true, none, some, Text,
  ◌≡◌, ◌≢◌, refl, arith, ap, sym, ◌∙◌,
}
use i_filter_imitation.Scan.Status.{clean, error, scanning, ScanResult}
use i_filter_imitation.Scan.Clamd.{Reading}
use i_filter_imitation.Scan.Job.{
  Job, result_sent, upload_done, body_closed, Body, ScanEnv, Ended, passing, set_result, send,
  write_file, limited, fails, end_error, end_verdict, scanned, conclude, normal_scan, scan_open,
  close_up, run_scan,
}
use i_filter_imitation.Scan.Job.Delivery.{delivered}

limited-ne-content :
    (env : ScanEnv) (body : Body)
    → env.limit + 1 < length body.content
    → limited env body ≢ body.content
unfolding limited
limited-ne-content env body long e =
    omega (arith, length-take (env.limit + 1) body.content, ap length e)

at_error : Job → Text → Ended
at_error job file = close_up (end_error (write_file file job) none)

at_error_lem :
    (env : ScanEnv) (body : Body) (job : Job)
    → env.limit + 1 < length body.content
    → job.events ≡ []
    → job.tail_body ≡ none
    → let e = at_error job (limited env body) in
      (e.job.status ≡ error)
      × (e.job.events ≡ result_sent passing ∷ upload_done ∷ body_closed ∷ [])
      × (delivered e ≡ take (env.limit + 1) body.content)
      × (delivered e ≢ body.content)
unfolding at_error close_up end_error send set_result write_file
at_error_lem env body job long silent no_tail = (
  refl,
  rw silent,
  whole ∙ unfold limited in refl,
  λ e. limited-ne-content env body long (sym whole ∙ e),
)
  where
    whole : delivered (at_error job (limited env body)) ≡ limited env body
    whole = rw no_tail (append-nil (limited env body))

module _ (sha256 : Text → Text) (scan : Text → Bool → Reading) (env : ScanEnv) (body : Body) where
  normal_scan-failed :
      (save_tail : Bool) (job : Job)
      → (scan (limited env body) (fails env body)).consumed ≤ env.limit_after
      → (scan (limited env body) (fails env body)).outcome ≡ none
      → normal_scan sha256 scan save_tail env body job none
        ≡ end_error (write_file (limited env body) job) none
  unfolding normal_scan
  normal_scan-failed save_tail job few failed =
      ground
        (arith, length-take (scan (limited env body) (fails env body)).consumed (limited env body))

  run_scan_open :
      (save_tail : Bool) (job : Job)
      → env.opens ≡ true
      → run_scan sha256 scan save_tail env body job none
        ≡ close_up (normal_scan sha256 scan save_tail env body (set_result scanning [] job) none)
  unfolding run_scan scan_open
  run_scan_open save_tail job opens = ground arith

  -- If the cache is off and the scanner fails before it has read more than the limit, as it does
  -- where clamd is down, then a body that is more than one byte over the limit is not delivered
  -- whole to a command-line client, though the job's result is clean: the file stops one byte
  -- behind the limit, there is no tail, and the upstream body is closed.
  pub run_scan-truncates :
      (job : Job)
      → env.opens ≡ true
      → env.limit + 1 < length body.content
      → (scan (limited env body) (fails env body)).consumed ≤ env.limit_after
      → (scan (limited env body) (fails env body)).outcome ≡ none
      → job.events ≡ []
      → job.tail_body ≡ none
      → let e = run_scan sha256 scan true env body job none in
        (e.job.status ≡ error)
        × (e.job.events ≡ result_sent passing ∷ upload_done ∷ body_closed ∷ [])
        × (delivered e ≡ take (env.limit + 1) body.content)
        × (delivered e ≢ body.content)
  unfolding at_error set_result
  run_scan-truncates job opens long few failed silent no_tail =
      rw (run_scan_open true job opens ∙ ap close_up (normal_scan-failed true _ few failed))
        (at_error_lem env body (set_result scanning [] job) long silent no_tail)

  normal_scan-passed :
      (save_tail : Bool) (job : Job) (r : ScanResult)
      → length (take (scan (limited env body) (fails env body)).consumed (limited env body))
        ≤ env.limit_after
      → (scan (limited env body) (fails env body)).outcome ≡ some r
      → normal_scan sha256 scan save_tail env body job none
        ≡ end_verdict
            (scanned r)
            (write_file
              (take (scan (limited env body) (fails env body)).consumed (limited env body))
              job)
            none
            []
  unfolding normal_scan conclude
  normal_scan-passed save_tail job r few passed = ground arith

  length-limited : (n : ℕ) → length (take n (limited env body)) ≤ env.limit + 1
  unfolding limited
  length-limited n = omega (
    arith,
    length-take n (take (env.limit + 1) body.content),
    length-take (env.limit + 1) body.content,
  )

  clean_end :
      (file : Text) (job : Job) (r : ScanResult)
      → r.clean ≡ true
      → let e = close_up (end_verdict (scanned r) (write_file file job) none []) in
        (e.job.status ≡ clean) × (e.job.file ≡ file)
  unfolding close_up end_verdict send set_result write_file
  clean_end file job r h = ground arith

  -- If the cache is off and the limit is raised while a body that is more than one byte over the
  -- old limit is scanned, then a scanner that calls what it was given clean makes the job clean with
  -- a file that is not the whole body.
  pub run_scan-raised_limit :
      (save_tail : Bool) (job : Job) (r : ScanResult)
      → env.opens ≡ true
      → env.limit < env.limit_after
      → env.limit + 1 < length body.content
      → (scan (limited env body) (fails env body)).outcome ≡ some r
      → r.clean ≡ true
      → let e = run_scan sha256 scan save_tail env body job none in
        (e.job.status ≡ clean) × (e.job.file ≢ body.content)
  run_scan-raised_limit save_tail job r opens raised long passed good =
      let n = (scan (limited env body) (fails env body)).consumed in
      let few : length (take n (limited env body)) ≤ env.limit_after =
        omega (arith, length-limited n) in
      let (status, file) =
        clean_end (take n (limited env body)) (set_result scanning [] job) r good in
      rw
        (run_scan_open save_tail job opens
          ∙ ap close_up (normal_scan-passed save_tail _ r few passed))
        (status, λ e. omega (arith, length-limited n, ap length (sym file ∙ e)))
