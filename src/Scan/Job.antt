-- ===== src/Scan/Job.antt =====
-- internal/scan/manager.go: one scan job and the goroutine `runScan` that works on it. A stream is
-- the list of its bytes and whether it then fails. Writes to the temp file, once it is open, succeed.
-- What Redis answers, the times and the two readings of MaxSize are inputs: other goroutines may
-- store another limit while the scan runs.
pub mod Cases
pub mod Protocol
pub mod Verdicts
pub mod Delivery
pub mod Faults
pub mod Threat
mod Tests
use i_filter_imitation.Common.{
  ℕ, ◌+◌, List, [], ◌∷◌, ◌++◌, length, take, drop, Bool, true, false, ◌&&◌, Option, none, some, ltb,
  leb, if◌then◌else◌, Text,
}
use i_filter_imitation.Scan.Status.{
  ScanStatus, pending, scanning, clean, infected, error, too_large, ScanResult, Verdict, is_clean,
  is_infected, merge_results,
}
use i_filter_imitation.Scan.Cache.{
  ResultCache, RedisReply, RedisSet, get_by_url, get_by_hash, store,
}
use i_filter_imitation.Scan.Clamd.{Reading}

-- What other goroutines see happen, in order: the send on resultCh, the closing of uploadDone, the
-- closing of the upstream body.
pub data JobEvent : Type 0 where
  result_sent : ScanResult → JobEvent
  upload_done body_closed : JobEvent

pub record Job : Type 0 where
  pub id : Text
  pub filename : Text
  pub content_type : Text
  pub content_encoding : Text
  pub original_url : Text
  pub temp_path : Text
  pub created_at : ℕ
  pub file : Text
  pub written : ℕ
  pub tail_body : Option Text
  pub status : ScanStatus
  pub threat_name : Text
  pub events : List JobEvent

unfoldable pub set_result : ScanStatus → Text → Job → Job
set_result s threat job = record job { status = s; threat_name = threat }

unfoldable pub send : ScanResult → Job → Job
send r job = record job { events = job.events ++ result_sent r ∷ [] }

abbrev pub passing : ScanResult
passing = record { clean = true; threat_name = [] }

-- the bytes that came through the tee into the temp file
unfoldable pub write_file : Text → Job → Job
write_file s job = record job { file = s; written = length s }

-- the upstream response body
pub record Body : Type 0 where
  pub content : Text
  pub broken : Bool

pub record ScanEnv : Type 0 where
  pub opens : Bool
  pub limit : ℕ
  pub limit_after : ℕ
  pub url_at : ℕ
  pub hash_at : ℕ
  pub store_at : ℕ
  pub url_reply : RedisReply
  pub hash_reply : RedisReply

pub record Ended : Type 0 where
  pub job : Job
  pub owns_body : Bool
  pub cache : Option ResultCache
  pub writes : List RedisSet

-- io.LimitReader(body, MaxSize+1): the bytes it can give, and whether it can fail.
unfoldable pub limited : ScanEnv → Body → Text
limited env body = take (env.limit + 1) body.content

unfoldable pub fails : ScanEnv → Body → Bool
fails env body = body.broken && leb (length body.content) env.limit

-- The stream was longer than the limit: `n` bytes of the body have been read.
unfoldable pub end_too_large : Bool → Body → ℕ → Job → Option ResultCache → Ended
unfolding set_result send
end_too_large save_tail body n job cache = record {
  job = send passing (
      set_result too_large []
        (if save_tail then record job { tail_body = some (drop n body.content) } else job));
  owns_body = if save_tail then false else true;
  cache = cache;
  writes = [];
}

unfoldable pub end_error : Job → Option ResultCache → Ended
unfolding set_result send
end_error job cache = record {
  job = send passing (set_result error [] job);
  owns_body = true;
  cache = cache;
  writes = [];
}

unfoldable pub end_verdict : Verdict → Job → Option ResultCache → List RedisSet → Ended
unfolding set_result send
end_verdict (status, threat) job cache writes = record {
  job =
      send (record { clean = is_clean status; threat_name = threat })
        (if is_clean status then set_result clean [] job else set_result infected threat job);
  owns_body = true;
  cache = cache;
  writes = writes;
}

-- a hash verdict from the cache, if there is one, merged into `v`
unfoldable pub merged : Verdict → Option Verdict → Verdict
unfolding merge_results
merged v none = v
merged v (some h) = merge_results v h

abbrev pub scanned : ScanResult → Verdict
scanned r = (if r.clean then clean else infected, r.threat_name)

-- The deferred calls, the last one first: uploadDone is closed, then the body if it is still owned.
unfoldable pub close_up : Ended → Ended
close_up e = record e {
  job = record (e.job) {
    events = e.job.events ++ upload_done ∷ (if e.owns_body then body_closed ∷ [] else []);
  };
}

module _ (sha256 : Text → Text) (scan : Text → Bool → Reading) where
  -- The URL is in the cache: the body is buffered without clamd.
  pub cached_scan : Bool → ScanEnv → Body → Job → ResultCache → Verdict → Ended
  cached_scan save_tail env body job cache verdict =
      let got = limited env body in
      let job' = write_file got job in
      let (hash_verdict, cache') =
        get_by_hash sha256 env.hash_at env.hash_reply (sha256 got) cache in
      if ltb env.limit_after (length got)
      then end_too_large save_tail body (length got) job' (some cache)
      else end_verdict (merged verdict hash_verdict) job' (some cache') []

  -- the verdict of clamd, with the cache asked by hash and told
  unfoldable pub conclude : ScanEnv → Text → Job → Option ResultCache → ScanResult → Ended
  conclude env got job none r = end_verdict (scanned r) job none []
  conclude env got job (some cache) r =
      let (hash_verdict, c') = get_by_hash sha256 env.hash_at env.hash_reply (sha256 got) cache in
      let v = merged (scanned r) hash_verdict in
      let (c'', writes) = store sha256 env.store_at job.original_url (sha256 got) v.0 v.1 c' in
      end_verdict v job (some c'') writes

  -- The scanner reads the stream, and what it reads goes into the temp file.
  unfoldable pub normal_scan : Bool → ScanEnv → Body → Job → Option ResultCache → Ended
  normal_scan save_tail env body job cache =
      let got = limited env body in
      let reading = scan got (fails env body) in
      let seen = take reading.consumed got in
      if ltb env.limit_after (length seen)
      then end_too_large save_tail body (length seen) (write_file seen job) cache
      else elim reading.outcome [
        | none ↦ end_error (write_file got job) cache
        | some r ↦ conclude env seen (write_file seen job) cache r
      ]

  unfoldable pub scan_open : Bool → ScanEnv → Body → Job → Option ResultCache → Ended
  scan_open save_tail env body job none = normal_scan save_tail env body job none
  scan_open save_tail env body job (some cache) =
      let (found, cache') = get_by_url sha256 env.url_at env.url_reply job.original_url cache in
      elim found [
        | none ↦ normal_scan save_tail env body job (some cache')
        | some verdict ↦ cached_scan save_tail env body job cache' verdict
      ]

  unfoldable pub run_scan : Bool → ScanEnv → Body → Job → Option ResultCache → Ended
  run_scan save_tail env body job cache = close_up (
      if env.opens
      then scan_open save_tail env body (set_result scanning [] job) cache
      else end_error job cache)
