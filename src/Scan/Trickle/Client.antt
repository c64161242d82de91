-- ===== src/Scan/Trickle/Client.antt =====
-- The scan and the trickling body together (`StartCLIJob`): what a caller of `TrickleBody.Read` can end up
-- with. What a client behind a tunnel makes of it is in Proxy/Framing/Infected.
use i_filter_imitation.Common.{
  List, ◌++◌, length, Bool, true, false, not, Option, none, some, if◌then◌else◌, Text, ◌≡◌, refl,
  ap, ◌∙◌, All, ◌≤◌,
}
use i_filter_imitation.Scan.Status.{ScanResult, is_infected}
use i_filter_imitation.Scan.Cache.{ResultCache}
use i_filter_imitation.Scan.Clamd.{Reading}
use i_filter_imitation.Scan.Clamd.Laws.{IsScanner}
use i_filter_imitation.Scan.Job.{Job, Body, ScanEnv, Ended, limited, run_scan}
use i_filter_imitation.Scan.Job.Protocol.{IsNew, run_scan-Reports}
use i_filter_imitation.Scan.Job.Delivery.{is_error, tail_of, delivered, run_scan-Delivers}
use i_filter_imitation.Scan.Trickle.{tail_bytes, Call, new_trickle_body}
use i_filter_imitation.Scan.Trickle.Laws.{whole, IsCall}
use i_filter_imitation.Scan.Trickle.Session.{session, session_end, session-infected}

whole-delivered : (e : Ended) → whole e.job ≡ delivered e
whole-delivered e = ap (λ t. e.job.file ++ t) (same e.job.tail_body)
  where
    same : (o : Option Text) → tail_bytes o ≡ tail_of o
    same none = refl
    same (some t) = refl

module _ (sha256 : Text → Text) (scan : Text → Bool → Reading) (env : ScanEnv) (body : Body)
    (job : Job) (cache : Option ResultCache) (fresh : IsNew job) where
  -- The scan that StartCLIJob starts, and the result it sends.
  abbrev pub scanned_job : Ended
  scanned_job = run_scan sha256 scan true env body job cache

  abbrev pub reported : ScanResult
  reported = (run_scan-Reports sha256 scan true env body job cache fresh).result

  -- If the temp file opens, the scanner is lawful and the limit does not change, a caller of Read who
  -- gets io.EOF, with no scan error, has received the whole upstream body, however the calls and the
  -- scan interleave, and the result sent was clean.
  pub client_whole :
      env.opens ≡ true
      → env.limit_after ≡ env.limit
      → IsScanner scan
      → is_error scanned_job.job.status ≡ false
      → (calls : List Call) → All (IsCall scanned_job.job) calls
      → (session reported scanned_job.job calls new_trickle_body).ended ≡ true
      → ((session reported scanned_job.job calls new_trickle_body).received ≡ body.content)
        × (reported.clean ≡ true)
  client_whole opens steady law fine calls cs h =
      let (all, ok) = session_end reported scanned_job.job calls cs h in
      (
        all
            ∙ whole-delivered scanned_job
            ∙ run_scan-Delivers sha256 scan env body steady law job cache fresh.no_tail opens
            ∙ ap (λ b. if b then limited env body else body.content) fine,
        ok,
      )

  -- If the scan of a new job ends as infected, the caller of Read never gets io.EOF and at most one byte
  -- for each call, however the calls and the scan interleave.
  pub client-infected :
      is_infected scanned_job.job.status ≡ true
      → (calls : List Call) → All (IsCall scanned_job.job) calls
      → ((session reported scanned_job.job calls new_trickle_body).ended ≡ false)
        × (length (session reported scanned_job.job calls new_trickle_body).received ≤ length calls)
  client-infected bad calls cs =
      session-infected reported scanned_job.job calls cs
        ((run_scan-Reports sha256 scan true env body job cache fresh).agrees ∙ ap not bad)
