-- ===== src/Scan/Endpoint/Laws.antt =====
-- What the handler gives away, and what a browser gets after a scan.
use i_filter_imitation.Common.{
  Bool, true, ◌&&◌, Option, none, some, Text, codes, text_eq, ◌≡◌, refl, arith, if_intro,
  option_intro,
}
use i_filter_imitation.Scan.Job.{Job}
use i_filter_imitation.Scan.Manager.{
  Manager, get_job, Download, serve_file, is_servable, download_of,
}
use i_filter_imitation.Scan.Endpoint.{
  Reply, forbidden, served, path_download, handle_status, handle_download, handle_result,
  serve_http,
}

-- The content given away by a reply is the file of a job that was found as clean or in error.
pub record IsServed (id : Text) (m : Manager) (d : Download) : Type 0 where
  pub job : Job
  pub found : get_job id m ≡ some job
  pub allowed : is_servable job.status ≡ true
  pub same : d.content ≡ job.file

abbrev pub Guarded : Text → Manager → Reply → Type 0
Guarded id m (served d) = IsServed id m d
Guarded id m _ = Unit

serve_file-IsServed :
    (opens : Bool) (id : Text) (m : Manager) (job : Job)
    → get_job id m ≡ some job
    → Guarded id m (elim (serve_file opens job m) [ none ↦ forbidden | some d ↦ served d ])
unfolding serve_file download_of
serve_file-IsServed opens id m job e =
    if_intro
      (λ (o : Option Download). Guarded id m (elim o [ none ↦ forbidden | some d ↦ served d ]))
      (is_servable job.status && (opens && m.files job.temp_path)) _ _
      (λ h. record { job = job; found = e; allowed = ground (arith, h); same = refl }) (λ _. tt)

handle_download-Guarded :
    (opens : Bool) (id : Text) (m : Manager) → Guarded id m (handle_download opens id m)
unfolding handle_download get_job
handle_download-Guarded opens id m =
    option_intro (Guarded id m) (m.jobs id) _ _ (λ _. tt)
      (λ job e. serve_file-IsServed opens id m job (unfold get_job in e))

-- Whatever the request, a reply that gives a file away gives the file of the job of that id, whose
-- scan ended as clean or as an error.
pub serve_http-Guarded :
    (opens : Bool) (method path id : Text) (m : Manager)
    → Guarded id m (serve_http opens method path id m)
unfolding serve_http handle_status handle_result
serve_http-Guarded opens method path id m =
    if_intro (Guarded id m) (text_eq method (codes "OPTIONS")) _ _ (λ _. tt)
      (λ _.
        if_intro (Guarded id m) (text_eq path _) _ _
          (λ _. option_intro (Guarded id m) (m.jobs id) _ _ (λ _. tt) (λ _ _. tt))
          (λ _.
            if_intro (Guarded id m) (text_eq path path_download) _ _
              (λ _. handle_download-Guarded opens id m)
              (λ _.
                if_intro (Guarded id m) (text_eq path _) _ _
                  (λ _. option_intro (Guarded id m) (m.jobs id) _ _ (λ _. tt) (λ _ _. tt))
                  (λ _. tt))))
