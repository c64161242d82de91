-- ===== src/Scan/Manager/Tests.antt =====
-- The cleanup at time 101 and 102, with a time to live of 100, on a job of time 1.
use i_filter_imitation.Common.{[], ◌∷◌, some, codes, text_eq, ◌≡◌, refl}
use i_filter_imitation.Scan.Job.{Job}
use i_filter_imitation.Scan.Manager.{
  Manager, new_manager, store_job, get_job, cleanup_jobs, is_expired,
}
use i_filter_imitation.Scan.Manager.Laws.{cleanup_jobs-get_job}
use i_filter_imitation.Scan.Samples.{fresh_job, manager}

abbrev old_job : Job
old_job = record fresh_job { created_at = 1 }

abbrev one_job : Manager
one_job = store_job (codes "id") old_job manager

one_job-get_job : get_job (codes "id") one_job ≡ some old_job
unfolding get_job store_job new_manager text_eq
one_job-get_job = refl

cleanup_jobs_young :
    get_job (codes "id") (cleanup_jobs 101 (codes "id" ∷ []) one_job) ≡ some old_job
unfolding text_eq is_expired store_job new_manager
cleanup_jobs_young =
    cleanup_jobs-get_job 101 (codes "id" ∷ []) (codes "id") one_job old_job one_job-get_job
