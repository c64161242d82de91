-- ===== src/Proxy/ScanTransport.antt =====
-- internal/proxy/scantransport.go: the transport that looks at every upstream response and sends a
-- download to the scanner. The upstream answer is an input; none stands for an error of it.
pub mod Laws
mod Tests
use i_filter_imitation.Common.{
  ℕ, ◌^◌, ◌-◌, List, [], ◌∷◌, ◌++◌, Bool, true, false, ◌&&◌, Option, none, some, ltb, leb,
  if◌then◌else◌, Text, codes, contains,
}
use i_filter_imitation.Scan.Status.{ScanStatus, clean, infected, Verdict}
use i_filter_imitation.Scan.Config.{is_scannable}
use i_filter_imitation.Scan.Cache.{RedisReply}
use i_filter_imitation.Scan.Job.{Job}
use i_filter_imitation.Scan.Trickle.{TrickleBody}
use i_filter_imitation.Scan.Manager.{
  Request, Response, Manager, lookup_url, new_preset_job, start_browser_job, start_cli_job,
}
use i_filter_imitation.Scan.Endpoint.{path_result}

abbrev pub magic_host : Text
magic_host = codes "proxy.invalid"

-- What the caller is given: the response as it is, a redirect to the page of a job (with the value of
-- X-Proxy-Scan, if it is set), or the headers of the response with a trickling body of unknown length.
pub data Outcome : Type 0 where
  failed : Outcome
  passed_through : Response → Outcome
  redirected : Text → Option Text → Outcome
  trickled : Response → TrickleBody → Outcome

-- `resp.ContentLength > MaxSize()` on int64 values; no length is -1.
unfoldable pub exceeds : Option ℕ → ℕ → Bool
exceeds none w = leb (2 ^ 63) w && ltb w (2 ^ 64 - 1)
exceeds (some n) w = if leb (2 ^ 63) w then true else ltb w n

unfoldable pub is_browser_request : Request → Bool
unfolding contains
is_browser_request req = contains req.accept (codes "text/html")

unfoldable pub scan_redirect_response : Text → Text
scan_redirect_response job_id =
    codes "http://" ++ magic_host ++ path_result ++ codes "?id=" ++ job_id

-- the inputs of a round trip: the new id, the time, the file system and Redis
pub record TripEnv : Type 0 where
  pub id : Text
  pub now : ℕ
  pub creates : Bool
  pub opens : Bool
  pub url_reply : RedisReply

unfoldable pub handle_browser : TripEnv → Request → Response → Manager → Outcome × Manager
unfolding start_browser_job scan_redirect_response
handle_browser env req resp m =
    let (job, m') = start_browser_job env.id env.now env.creates req resp m in
    (redirected (scan_redirect_response job.id) (some (codes "pending:" ++ job.id)), m')

unfoldable pub handle_cli : TripEnv → Request → Response → Manager → Outcome × Manager
unfolding start_cli_job
handle_cli env req resp m =
    let (_, tb, m') = start_cli_job env.id env.now env.creates env.opens req resp m in
    (trickled (record resp { content_length = none }) tb, m')

unfoldable pub handle_scan : TripEnv → Request → Response → Manager → Outcome × Manager
handle_scan env req resp m =
    if is_browser_request req then handle_browser env req resp m else handle_cli env req resp m

-- what a cached verdict leads to
unfoldable pub handle_cached :
    TripEnv → Request → Response → Option Verdict → Manager → Outcome × Manager
unfolding new_preset_job scan_redirect_response
handle_cached env req resp (some (clean, threat)) m = (passed_through resp, m)
handle_cached env req resp (some (infected, threat)) m =
    let (job, m') = new_preset_job env.id env.now req resp infected threat m in
    (redirected (scan_redirect_response job.id) none, m')
handle_cached env req resp _ m = handle_scan env req resp m

unfoldable pub round_trip :
    (Text → Text) → TripEnv → Request → Option Response → Manager → Outcome × Manager
round_trip sha256 env req none m = (failed, m)
round_trip sha256 env req (some resp) m =
    let (cached, m') = lookup_url sha256 env.now env.url_reply req.url m in
    if is_scannable m.config resp.content_type
    then if exceeds resp.content_length m.max_size
      then (passed_through resp, m)
      else handle_cached env req resp cached m'
    else (passed_through resp, m)
