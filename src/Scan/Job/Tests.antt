-- ===== src/Scan/Job/Tests.antt =====
-- The theorems on `runScan` at short bodies, with the clamd client as the scanner.
use i_filter_imitation.Common.{
  ℕ, ◌+◌, [], ◌∷◌, take, Bool, true, false, none, some, if◌then◌else◌, Text, codes, ◌≡◌, ◌≢◌, refl,
  arith,
}
use i_filter_imitation.Scan.Status.{pending, clean, error}
use i_filter_imitation.Scan.Cache.{unavailable}
use i_filter_imitation.Scan.Clamd.{Peer, Reading, scan_reader, stream_ok}
use i_filter_imitation.Scan.Clamd.Laws.{scan_reader-IsScanner, bytewise, bytewise-IsCut}
use i_filter_imitation.Scan.Job.{
  Job, Body, ScanEnv, result_sent, upload_done, body_closed, passing, run_scan, limited, fails,
  scan_open, normal_scan, end_verdict, conclude, write_file, send, set_result, close_up,
}
use i_filter_imitation.Scan.Job.Protocol.{IsNew, Reports, run_scan-Reports}
use i_filter_imitation.Scan.Job.Verdicts.{IsCleanScan, run_scan-clean}
use i_filter_imitation.Scan.Job.Delivery.{Delivers, delivered, run_scan-Delivers}
use i_filter_imitation.Scan.Job.Faults.{run_scan-truncates, run_scan-raised_limit}

abbrev identity : Text → Text
identity s = s

abbrev job : Job
job = record {
  id = codes "id";
  filename = codes "f";
  content_type = codes "application/zip";
  content_encoding = [];
  original_url = codes "http://a/f";
  temp_path = codes "/tmp/id";
  created_at = 0;
  file = [];
  written = 0;
  tail_body = none;
  status = pending;
  threat_name = [];
  events = [];
}

abbrev up : Peer
up = record { accepts = true; takes_command = true; writes = 100; answer = some stream_ok }

abbrev down : Peer
down = record { accepts = false; takes_command = true; writes = 0; answer = none }

abbrev scan_up : Text → Bool → Reading
scan_up = scan_reader up bytewise

abbrev scan_down : Text → Bool → Reading
scan_down = scan_reader down bytewise

abbrev limits : ℕ → ℕ → ScanEnv
limits before after = record {
  opens = true;
  limit = before;
  limit_after = after;
  url_at = 1;
  hash_at = 2;
  store_at = 3;
  url_reply = unavailable;
  hash_reply = unavailable;
}

abbrev four : Body
four = record { content = codes "abcd"; broken = false }

job-IsNew : IsNew job
job-IsNew = record { silent = refl; no_tail = refl }

run_scan-Reports_example :
    let e = run_scan identity scan_up true (limits 9 9) four job none in
    Reports (upload_done ∷ (if e.owns_body then body_closed ∷ [] else [])) e
run_scan-Reports_example =
    run_scan-Reports identity scan_up true (limits 9 9) four job none job-IsNew

run_scan-clean_example :
    IsCleanScan identity scan_up
      (limits 9 9)
      four
      job.original_url
      none
      (run_scan identity scan_up true (limits 9 9) four job none)
unfolding run_scan scan_open normal_scan limited fails conclude end_verdict close_up set_result send
    write_file scan_reader bytewise
run_scan-clean_example =
    run_scan-clean identity scan_up true (limits 9 9) four refl
      (scan_reader-IsScanner up bytewise bytewise-IsCut) job none refl

run_scan-Delivers_example :
    Delivers (limits 2 2) four (run_scan identity scan_up true (limits 2 2) four job none)
run_scan-Delivers_example =
    run_scan-Delivers identity scan_up (limits 2 2) four refl
      (scan_reader-IsScanner up bytewise bytewise-IsCut) job none refl refl

run_scan-truncates_example :
    let e = run_scan identity scan_down true (limits 2 2) four job none in
    (e.job.status ≡ error)
    × (e.job.events ≡ result_sent passing ∷ upload_done ∷ body_closed ∷ [])
    × (delivered e ≡ take (2 + 1) four.content)
    × (delivered e ≢ four.content)
unfolding scan_reader
run_scan-truncates_example =
    run_scan-truncates identity scan_down (limits 2 2) four job refl (omega arith) (omega arith)
      refl refl refl

run_scan-raised_limit_example :
    let e = run_scan identity scan_up true (limits 2 9) four job none in
    (e.job.status ≡ clean) × (e.job.file ≢ four.content)
unfolding scan_reader bytewise limited fails
run_scan-raised_limit_example =
    run_scan-raised_limit identity scan_up (limits 2 9) four true job passing refl (omega arith)
      (omega arith) refl refl
