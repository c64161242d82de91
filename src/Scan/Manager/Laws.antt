-- ===== src/Scan/Manager/Laws.antt =====
-- The manager's map of jobs: what the cleanup takes out of it and what it leaves.
use i_filter_imitation.Common.{
  subst, ℕ, List, [], ◌∷◌, Bool, true, false, ◌||◌, none, some, if◌then◌else◌, Text, text_eq,
  text_eq→eq, ◌≡◌, refl, ◌∙◌, if_intro, option_intro, Bool-cases, inl, inr,
}
use i_filter_imitation.Scan.Job.{Job}
use i_filter_imitation.Scan.Manager.{Manager, get_job, is_expired, cleanup_job, cleanup_jobs}

-- `id` stands in the list.
abbrev pub has_id : Text → List Text → Bool
has_id id [] = false
has_id id (k ∷ ks) = text_eq id k || has_id id ks

cleanup_job-ttl : (now : ℕ) (id : Text) (m : Manager) → (cleanup_job now id m).ttl ≡ m.ttl
unfolding cleanup_job
cleanup_job-ttl now id m =
    option_intro (λ (n : Manager). n.ttl ≡ m.ttl) (m.jobs id) _ _ (λ _. refl)
      (λ job _.
        if_intro (λ (n : Manager). n.ttl ≡ m.ttl) (is_expired now m.ttl job) _ _ (λ _. refl)
          (λ _. refl))

own_job :
    (now : ℕ) (k id : Text) (m : Manager) (job : Job)
    → m.jobs id ≡ some job
    → m.jobs k ≡ some job
    → text_eq id k ≡ true
    → (cleanup_job now k m).jobs id ≡ (if is_expired now m.ttl job then none else some job)
unfolding cleanup_job
own_job now k id m job e f q = elim (Bool-cases (is_expired now m.ttl job)) [
  | inl x ↦ rw (f, cleanup_job, x, q) refl
  | inr x ↦ rw (f, cleanup_job, x) e
]

other_job :
    (now : ℕ) (k id : Text) (m : Manager) (job : Job)
    → m.jobs id ≡ some job
    → text_eq id k ≡ false
    → (cleanup_job now k m).jobs id ≡ some job
unfolding cleanup_job
other_job now k id m job e q =
    option_intro (λ (n : Manager). n.jobs id ≡ some job) (m.jobs k) _ _ (λ _. e)
      (λ other _.
        if_intro (λ (n : Manager). n.jobs id ≡ some job) (is_expired now m.ttl other) _ _
          (λ _. rw q e) (λ _. e))

cleanup_job-none :
    (now : ℕ) (k id : Text) (m : Manager) → m.jobs id ≡ none → (cleanup_job now k m).jobs id ≡ none
unfolding cleanup_job
cleanup_job-none now k id m e =
    option_intro (λ (n : Manager). n.jobs id ≡ none) (m.jobs k) _ _ (λ _. e)
      (λ job _.
        if_intro (λ (n : Manager). n.jobs id ≡ none) (is_expired now m.ttl job) _ _
          (λ _. if_intro (λ o. o ≡ none) (text_eq id k) none (m.jobs id) (λ _. refl) (λ _. e))
          (λ _. e))

cleanup_jobs-none :
    (now : ℕ) (ids : List Text) (id : Text) (m : Manager)
    → m.jobs id ≡ none
    → (cleanup_jobs now ids m).jobs id ≡ none
unfolding cleanup_jobs
cleanup_jobs-none now [] id m e = e
cleanup_jobs-none now (k ∷ ids) id m e =
    cleanup_jobs-none now ids id (cleanup_job now k m) (cleanup_job-none now k id m e)

-- The cleanup over a list of ids takes a job of the list out exactly when its time is over, and keeps
-- every other job as it is.
pub cleanup_jobs-get_job :
    (now : ℕ) (ids : List Text) (id : Text) (m : Manager) (job : Job)
    → get_job id m ≡ some job
    → get_job id (cleanup_jobs now ids m)
      ≡ (if has_id id ids then if is_expired now m.ttl job then none else some job else some job)
unfolding cleanup_jobs get_job
cleanup_jobs-get_job now [] id m job e = e
cleanup_jobs-get_job now (k ∷ ids) id m job e = elim (Bool-cases (text_eq id k)) [
  | inl q ↦
      let own =
        own_job now k id m job e (subst (λ i. m.jobs i ≡ some job) (text_eq→eq id k q) e) q in
      elim (Bool-cases (is_expired now m.ttl job)) [
        | inl x ↦ cleanup_jobs-none now ids id (cleanup_job now k m) (own ∙ lost x) ∙ rw (q, x) refl
        | inr x ↦
            cleanup_jobs-get_job now ids id (cleanup_job now k m) job (own ∙ held x)
            ∙ rw (cleanup_job-ttl now k m, q, x) (either (has_id id ids))
      ]
  | inr q ↦
      cleanup_jobs-get_job now ids id (cleanup_job now k m) job (other_job now k id m job e q)
      ∙ rw (cleanup_job-ttl now k m, q) refl
]
  where
    lost :
        is_expired now m.ttl job ≡ true
        → (if is_expired now m.ttl job then none else some job) ≡ none
    lost x = rw x refl

    held :
        is_expired now m.ttl job ≡ false
        → (if is_expired now m.ttl job then none else some job) ≡ some job
    held x = rw x refl

    either : (b : Bool) → (if b then some job else some job) ≡ some job
    either true = refl
    either false = refl
