-- ===== src/Scan/Endpoint/Browser.antt =====
-- A browser's download from the start of the job to the page that gives the file away.
use i_filter_imitation.Common.{
  ℕ, ◌≤◌, List, [], length, Bool, true, false, Option, some, Text, codes, text_eq_refl, ◌≡◌, refl,
  ap, ◌∙◌, arith, option_intro,
}
use i_filter_imitation.Scan.Status.{
  ScanStatus, ScanResult, scanning, is_clean, is_infected, Verdict,
}
use i_filter_imitation.Scan.Cache.{ResultCache, RedisSet}
use i_filter_imitation.Scan.Clamd.{Reading}
use i_filter_imitation.Scan.Clamd.Laws.{IsScanner}
use i_filter_imitation.Scan.Job.{
  Job, ScanEnv, Body, Ended, run_scan, set_result, send, write_file, close_up, end_too_large,
  end_error, end_verdict, merged, scanned,
}
use i_filter_imitation.Scan.Job.Cases.{Ways, run_scan_cases}
use i_filter_imitation.Scan.Job.Threat.{Unknown, run_scan-Tells}
use i_filter_imitation.Scan.Job.Verdicts.{run_scan-clean}
use i_filter_imitation.Scan.Manager.{
  Request, Response, Manager, Download, start_browser_job, new_job, job_for, store_job,
  temp_path_in, finish_scan, get_job, serve_file, is_servable, download_of,
}
use i_filter_imitation.Scan.Endpoint.{
  forbidden, json, served, status_text, status_resp, handle_status, handle_download,
}

end_verdict-temp_path :
    (v : Verdict) (job : Job) (cache : Option ResultCache) (writes : List RedisSet)
    → (end_verdict v job cache writes).job.temp_path ≡ job.temp_path
unfolding end_verdict send set_result
end_verdict-temp_path (s, t) job cache writes = ground arith

end_too_large-temp_path :
    (save_tail : Bool) (body : Body) (n : ℕ) (job : Job) (cache : Option ResultCache)
    → (end_too_large save_tail body n job cache).job.temp_path ≡ job.temp_path
unfolding end_too_large send set_result
end_too_large-temp_path save_tail body n job cache = ground arith

module _ (sha256 : Text → Text) (scan : Text → Bool → Reading) (save_tail : Bool) (env : ScanEnv)
    (body : Body) (steady : env.limit_after ≡ env.limit) (law : IsScanner scan) (job : Job)
    (cache : Option ResultCache) where
  temp_path_ways :
      Ways sha256 scan save_tail env body
        (set_result scanning [] job)
        cache
        (λ e. e.job.temp_path ≡ job.temp_path)
  unfolding set_result write_file end_error send
  temp_path_ways = record {
    cut_off = λ seen c _. end_too_large-temp_path save_tail body _ _ c;
    failed = λ c. refl;
    hit = λ c v m c' _ _ _. end_verdict-temp_path (merged v m) _ c' [];
    answered = λ r m c writes _ _ _. end_verdict-temp_path (merged (scanned r) m) _ c writes;
  }

  run_scan-temp_path :
      (run_scan sha256 scan save_tail env body job cache).job.temp_path ≡ job.temp_path
  unfolding close_up end_error send set_result
  run_scan-temp_path =
      run_scan_cases sha256 scan save_tail env body steady law job cache
        (λ e. e.job.temp_path ≡ job.temp_path) (λ e p. p) (λ _. refl) temp_path_ways

-- The manager when a job that is still stored has been scanned.
finish_scan-get_job :
    (id : Text) (e : Ended) (m : Manager) (job : Job)
    → m.jobs id ≡ some job
    → get_job id (finish_scan id e m) ≡ some (e.job)
unfolding get_job finish_scan store_job
finish_scan-get_job id e m job f = rw (f, finish_scan, text_eq_refl id) refl

finish_scan-files : (id : Text) (e : Ended) (m : Manager) → (finish_scan id e m).files ≡ m.files
unfolding finish_scan store_job
finish_scan-files id e m =
    option_intro (λ (n : Manager). n.files ≡ m.files) (m.jobs id) _ _ (λ _. refl) (λ _ _. refl)

-- A job that may be served, with its file, is served.
handle_download-served :
    (id : Text) (m : Manager) (job : Job)
    → get_job id m ≡ some job
    → is_servable job.status ≡ true
    → m.files job.temp_path ≡ true
    → (d : Download) × (handle_download true id m ≡ served d) × (d.content ≡ job.file)
unfolding handle_download serve_file get_job download_of
handle_download-served id m job e ok there =
    (download_of job, rw (e, handle_download, serve_file, ok, there) refl, refl)

handle_download-forbidden :
    (opens : Bool) (id : Text) (m : Manager) (job : Job)
    → get_job id m ≡ some job
    → is_servable job.status ≡ false
    → handle_download opens id m ≡ forbidden
unfolding handle_download serve_file get_job
handle_download-forbidden opens id m job e shut = rw (e, handle_download, serve_file, shut) refl

is_clean-servable : (s : ScanStatus) → is_clean s ≡ true → is_servable s ≡ true
unfolding is_servable
is_clean-servable s h = ground arith

is_infected-servable : (s : ScanStatus) → is_infected s ≡ true → is_servable s ≡ false
unfolding is_servable
is_infected-servable s h = ground arith

status_resp-infected :
    (job : Job)
    → is_infected job.status ≡ true
    → status_resp job ≡ record { status = codes "infected"; threat = job.threat_name }
unfolding status_resp status_text
status_resp-infected job h = ground arith

handle_status_found :
    (id : Text) (m : Manager) (job : Job)
    → get_job id m ≡ some job
    → handle_status id m ≡ json (status_resp job)
unfolding handle_status get_job
handle_status_found id m job e = rw (e, handle_status) refl

module _ (sha256 : Text → Text) (scan : Text → Bool → Reading) (id : Text) (now : ℕ) (req : Request)
    (resp : Response) (m : Manager) (env : ScanEnv) where
  -- The job and the manager after StartBrowserJob with a temp file that can be made, and the manager
  -- when its scan has ended.
  abbrev pub started : Job × Manager
  started = start_browser_job id now true req resp m

  abbrev pub scan_end : Ended
  scan_end = run_scan sha256 scan false env resp.body started.0 started.1.cache

  abbrev pub finished : Manager
  finished = finish_scan id scan_end started.1

  started-get_job : started.1.jobs id ≡ some (started.0)
  unfolding start_browser_job new_job store_job job_for temp_path_in
  started-get_job = rw (text_eq_refl id) refl

  started-files : started.1.files started.0.temp_path ≡ true
  unfolding start_browser_job new_job store_job job_for temp_path_in
  started-files = rw (text_eq_refl (temp_path_in m.dir id)) refl

  -- If the temp file can be made and opened, the limit does not change, the scanner is lawful and the
  -- scan ends as clean, the browser that asks for the download is given the whole upstream body.
  pub handle_download-clean :
      env.limit_after ≡ env.limit
      → IsScanner scan
      → is_clean scan_end.job.status ≡ true
      → (d : Download) × (handle_download true id finished ≡ served d)
        × (d.content ≡ resp.body.content)
  handle_download-clean steady law h =
      let whole =
        run_scan-clean sha256 scan false env resp.body steady law started.0 started.1.cache h in
      let (d, given, same) =
        handle_download-served id finished scan_end.job
          (finish_scan-get_job id scan_end started.1 started.0 started-get_job)
          (is_clean-servable _ h)
          (ap (λ f. f scan_end.job.temp_path) (finish_scan-files id scan_end started.1)
            ∙ ap started.1.files (
                run_scan-temp_path sha256 scan false env resp.body steady law started.0
                  started.1.cache)
            ∙ started-files) in
      (d, given, same ∙ whole.stored)

  -- If the temp file can be made and opened, the limit does not change and the body is within it, the
  -- cache has no verdict for the URL, and the scanner finds a threat in the body, then the download is
  -- refused, and the status page tells that threat.
  pub handle_download-infected :
      (opens : Bool) (r : ScanResult)
      → env.opens ≡ true
      → Unknown sha256 env started.0.original_url started.1.cache
      → env.limit_after ≡ env.limit
      → length resp.body.content ≤ env.limit
      → (scan resp.body.content resp.body.broken).outcome ≡ some r
      → r.clean ≡ false
      → (handle_download opens id finished ≡ forbidden)
        × (handle_status id finished
            ≡ json (record { status = codes "infected"; threat = r.threat_name }))
  handle_download-infected opens r can new steady short found bad =
      let e = finish_scan-get_job id scan_end started.1 started.0 started-get_job in
      let (h, told) =
        run_scan-Tells sha256 scan env r bad false resp.body started.0 started.1.cache can new
          steady short found in
      (
        handle_download-forbidden opens id finished scan_end.job e (is_infected-servable _ h),
        handle_status_found id finished scan_end.job e
            ∙ ap json (status_resp-infected _ h)
            ∙ ap (λ t. json (record { status = codes "infected"; threat = t })) told,
      )
