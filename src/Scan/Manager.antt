-- ===== src/Scan/Manager.antt =====
-- internal/scan/manager.go: the Manager, which owns the jobs and their temp files. The id of a job, the
-- clock and whether the file system gives a file are inputs. `finish_scan` is what the goroutine
-- started with a job leaves behind, for the job and the cache are shared with it.
pub mod Laws
mod Tests
use i_filter_imitation.Common.{
  ℕ, ◌+◌, ◌-◌, ◌*◌, ◌/◌, ◌^◌, List, [], ◌∷◌, ◌++◌, Bool, true, false, ◌&&◌, ◌||◌, not, Option, none,
  some, ltb, leb, if◌then◌else◌, Text, codes, text_eq,
}
use i_filter_imitation.Scan.Status.{ScanStatus, pending, clean, infected, error, Verdict}
use i_filter_imitation.Scan.Config.{ScanConfig, max_size_bytes, default_scan_config}
use i_filter_imitation.Scan.Filename.{filename_from}
use i_filter_imitation.Scan.Cache.{RedisReply, ResultCache, get_by_url}
use i_filter_imitation.Scan.Job.{Job, Ended, Body, upload_done, set_result}
use i_filter_imitation.Scan.Trickle.{TrickleBody, new_trickle_body}

-- What is used of a request and of the upstream response. A length of none stands for -1.
pub record Request : Type 0 where
  pub url : Text
  pub path : Text
  pub accept : Text

pub record Response : Type 0 where
  pub status_code : ℕ
  pub content_type : Text
  pub content_encoding : Text
  pub content_disposition : Text
  pub content_length : Option ℕ
  pub body : Body

-- `max_size` is the 64 bits of an int64; `jobs` is the map; `files` tells the temp files there are.
pub record Manager : Type 0 where
  pub dir : Text
  pub ttl : ℕ
  pub max_size : ℕ
  pub config : ScanConfig
  pub jobs : Text → Option Job
  pub cache : Option ResultCache
  pub files : Text → Bool

unfoldable pub new_manager : Text → ℕ → ℕ → Option ResultCache → Manager
new_manager dir ttl max_size cache = record {
  dir = dir;
  ttl = ttl;
  max_size = max_size;
  config = record default_scan_config { max_size_mb = max_size / 2 ^ 20 };
  jobs = λ _. none;
  cache = cache;
  files = λ _. false;
}

unfoldable pub set_config : ScanConfig → Manager → Manager
set_config cfg m = record m { config = cfg; max_size = max_size_bytes cfg }

unfoldable pub get_job : Text → Manager → Option Job
get_job id m = m.jobs id

unfoldable pub store_job : Text → Job → Manager → Manager
store_job id job m = record m { jobs = λ k. if text_eq k id then some job else m.jobs k }

-- `LookupURL`: the verdict, and the cache afterwards
unfoldable pub lookup_url :
    (Text → Text) → ℕ → RedisReply → Text → Manager → Option Verdict × Manager
lookup_url sha256 now reply raw_url m = elim m.cache [
  | none ↦ (none, m)
  | some c ↦
      let (found, c') = get_by_url sha256 now reply raw_url c in
      (found, record m { cache = some c' })
]

unfoldable pub content_type_or_default : Text → Text
content_type_or_default [] = codes "application/octet-stream"
content_type_or_default (c ∷ s) = c ∷ s

-- filepath.Join of a clean directory name and a name without a slash
unfoldable pub temp_path_in : Text → Text → Text
temp_path_in dir id = dir ++ b'/' ∷ id

-- the fields that newJob and NewPresetJob fill in the same way
unfoldable pub job_for : Text → ℕ → Request → Response → Job
unfolding content_type_or_default
job_for id now req resp = record {
  id = id;
  filename = filename_from resp.content_disposition req.path;
  content_type = content_type_or_default resp.content_type;
  content_encoding = resp.content_encoding;
  original_url = req.url;
  temp_path = [];
  created_at = now;
  file = [];
  written = 0;
  tail_body = none;
  status = pending;
  threat_name = [];
  events = [];
}

-- `NewPresetJob`: no temp file, and uploadDone is closed at once.
unfoldable pub new_preset_job :
    Text → ℕ → Request → Response → ScanStatus → Text → Manager → Job × Manager
unfolding job_for store_job
new_preset_job id now req resp status threat m =
    let job = record (job_for id now req resp) {
      status = status;
      threat_name = threat;
      events = upload_done ∷ [];
    } in
    (job, store_job id job m)

-- `newJob`: `creates` tells whether the empty temp file can be made.
unfoldable pub new_job : Text → ℕ → Bool → Request → Response → Manager → Job × Manager
unfolding job_for store_job temp_path_in
new_job id now creates req resp m =
    let path = temp_path_in m.dir id in
    let job = record (job_for id now req resp) { temp_path = path } in
    (
      job,
      store_job id job
          (record m { files = λ p. if text_eq p path then creates || m.files p else m.files p }),
    )

unfoldable pub start_browser_job : Text → ℕ → Bool → Request → Response → Manager → Job × Manager
unfolding new_job
start_browser_job id now creates req resp m = new_job id now creates req resp m

-- `StartCLIJob`: whether the temp file opens for reading is an input. If it does not, the job is an
-- error and the body is passed on as it is.
unfoldable pub start_cli_job :
    Text → ℕ → Bool → Bool → Request → Response → Manager → Job × TrickleBody × Manager
unfolding new_job set_result store_job new_trickle_body
start_cli_job id now creates opens req resp m =
    let (job, m') = new_job id now creates req resp m in
    if opens && m'.files job.temp_path then (job, new_trickle_body, m') else (
      set_result error [] job,
      record new_trickle_body { fallback = some resp.body.content },
      store_job id (set_result error [] job) m',
    )

-- the shared job and cache when `runScan` has returned; a job that was removed meanwhile stays removed
unfoldable pub finish_scan : Text → Ended → Manager → Manager
unfolding store_job
finish_scan id e m = elim (m.jobs id) [
  | none ↦ record m { cache = e.cache }
  | some _ ↦ store_job id e.job (record m { cache = e.cache })
]

-- The headers that ServeFile sets, and the content that http.ServeContent is given.
pub record Download : Type 0 where
  pub disposition : Text
  pub content_type : Text
  pub content_encoding : Option Text
  pub name : Text
  pub content : Text

unfoldable pub is_servable : ScanStatus → Bool
is_servable clean = true
is_servable error = true
is_servable _ = false

unfoldable pub encoding_header : Text → Option Text
encoding_header [] = none
encoding_header (c ∷ s) = some (c ∷ s)

unfoldable pub download_of : Job → Download
unfolding encoding_header
download_of job = record {
  disposition = codes "attachment; filename=\"" ++ job.filename ++ codes "\"";
  content_type = job.content_type;
  content_encoding = encoding_header job.content_encoding;
  name = job.filename;
  content = job.file;
}

unfoldable pub serve_file : Bool → Job → Manager → Option Download
serve_file opens job m =
    if is_servable job.status && (opens && m.files job.temp_path)
    then some (download_of job)
    else none

unfoldable pub is_expired : ℕ → ℕ → Job → Bool
is_expired now ttl job = ltb ttl (now - job.created_at)

-- one round of the cleanup on the job stored under `id`: the file is removed with the job
unfoldable pub cleanup_job : ℕ → Text → Manager → Manager
cleanup_job now id m = elim (m.jobs id) [
  | none ↦ m
  | some job ↦
      if is_expired now m.ttl job
      then record m {
        files = λ p. if text_eq p job.temp_path then false else m.files p;
        jobs = λ k. if text_eq k id then none else m.jobs k;
      }
      else m
]

-- the call of Range over the ids of the map
unfoldable pub cleanup_jobs : ℕ → List Text → Manager → Manager
unfolding cleanup_job
cleanup_jobs now [] m = m
cleanup_jobs now (id ∷ ids) m = cleanup_jobs now ids (cleanup_job now id m)
