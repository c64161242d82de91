-- ===== src/Proxy/Framing/Infected.antt =====
-- An infected download of a command-line client through a tunnel: the trickling body (`handleCLI`) is
-- copied by `loopWriteBody` into the connection of the client.
use i_filter_imitation.Common.{
  ℕ, ◌<◌, ◌≤◌, List, ◌++◌, length, Bool, true, false, not, Option, none, some, Text, ◌≡◌, ap, ◌∙◌,
  All,
}
use i_filter_imitation.Scan.Status.{is_infected}
use i_filter_imitation.Scan.Cache.{ResultCache}
use i_filter_imitation.Scan.Clamd.{Reading}
use i_filter_imitation.Scan.Job.{Job, Body, ScanEnv}
use i_filter_imitation.Scan.Job.Protocol.{IsNew}
use i_filter_imitation.Scan.Trickle.{Call, new_trickle_body}
use i_filter_imitation.Scan.Trickle.Laws.{IsCall}
use i_filter_imitation.Scan.Trickle.Session.{Session, session}
use i_filter_imitation.Scan.Trickle.Client.{scanned_job, reported, client-infected}
use i_filter_imitation.Proxy.Chunked.{flatten}
use i_filter_imitation.Proxy.Framing.{UpResponse, loop_write_head, loop_write_body}
use i_filter_imitation.Proxy.Framing.Message.{read_message}
use i_filter_imitation.Proxy.Framing.RoundTrip.{IsPlainHead, read_message-cut}

-- The response that handleCLI makes of a trickling body, once the copy of it is over: it has no length,
-- its reads are those of the calls, and the copy ends with an error unless they came to io.EOF.
pub record IsCopied (s : Session) (resp : UpResponse) : Type 0 where
  pub no_length : resp.content_length ≡ none
  pub kept : resp.close ≡ false
  pub copied : flatten resp.reads ≡ s.received
  pub failed : resp.fails ≡ not s.ended

module _ (sha256 : Text → Text) (scan : Text → Bool → Reading) (env : ScanEnv) (body : Body)
    (job : Job) (cache : Option ResultCache) (fresh : IsNew job) where
  -- What the calls of Read give, of the job that the scan leaves.
  abbrev pub called : List Call → Session
  called calls =
      session (reported sha256 scan env body job cache fresh)
        (scanned_job sha256 scan env body job cache fresh).job calls new_trickle_body

  -- If the scan of a new job ends as infected, the caller of Read never gets io.EOF and at most one byte
  -- for each call, however the calls and the scan interleave. A command-line client behind a tunnel that
  -- keeps the connection is told all the same that these bytes are the complete body, and the next
  -- response follows them, if the response does not switch protocols and its reason and fields are one
  -- line each.
  pub read_message-infected :
      is_infected (scanned_job sha256 scan env body job cache fresh).job.status ≡ true
      → (calls : List Call)
      → All (IsCall (scanned_job sha256 scan env body job cache fresh).job) calls
      → (status_text : ℕ → Text) (resp : UpResponse) → IsPlainHead status_text resp
      → IsCopied (called calls) resp
      → (fuel : ℕ) (t : Text) → length resp.reads < fuel
      → ((called calls).ended ≡ false)
        × (length (called calls).received ≤ length calls)
        × (read_message fuel (loop_write_head status_text resp ++ (loop_write_body resp ++ t))
            ≡ some ((called calls).received, t))
  read_message-infected bad calls cs status_text resp head c fuel t h =
      let (open_end, slow) = client-infected sha256 scan env body job cache fresh bad calls cs in
      let (_, told) =
        read_message-cut status_text resp head fuel t (c.failed ∙ ap not open_end) c.no_length
          c.kept h in
      (open_end, slow, told ∙ ap (λ s. some (s, t)) c.copied)
