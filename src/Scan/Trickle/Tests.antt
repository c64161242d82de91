-- ===== src/Scan/Trickle/Tests.antt =====
-- The trickling body on a job with the file `ab` and the tail `cd`, and with a whole scan.
use i_filter_imitation.Common.{
  ℕ, List, [], ◌∷◌, ◌++◌, append-nil, Bool, true, false, not, none, some, Text, codes, ◌≡◌, refl,
  sym, ap, arith, length, All, ◌≤◌,
}
use i_filter_imitation.Scan.Clamd.{Reading, scan_reader}
use i_filter_imitation.Scan.Clamd.Laws.{scan_reader-IsScanner, bytewise, bytewise-IsCut}
use i_filter_imitation.Scan.Job.{
  Job, run_scan, scan_open, normal_scan, limited, fails, conclude, end_verdict, close_up,
  set_result, send, write_file, merged,
}
use i_filter_imitation.Scan.Job.Protocol.{IsNew, run_scan-Reports}
use i_filter_imitation.Scan.Trickle.{
  Look, Call, new_trickle_body, read, trickle, read_one, on_result, flush_read, read_file,
  read_tail, read_stream,
}
use i_filter_imitation.Scan.Trickle.Laws.{IsLook, IsCall}
use i_filter_imitation.Scan.Trickle.Session.{Session, session}
use i_filter_imitation.Scan.Samples.{
  job_with, good, bad, fresh_job, identity, peer, limits, two, ok_scan, found_scan,
}
use i_filter_imitation.Scan.Trickle.Client.{scanned_job, reported, client_whole, client-infected}
use i_filter_imitation.Proxy.Framing.{
  UpResponse, reason, header_lines, loop_write_head, loop_write_body,
}
use i_filter_imitation.Proxy.Framing.Message.{read_message}
use i_filter_imitation.Proxy.Framing.RoundTrip.{IsPlainHead}
use i_filter_imitation.Proxy.Framing.Infected.{called, IsCopied, read_message-infected}

abbrev job : Job
job = job_with (codes "ab") (some (codes "cd"))

-- one byte is there, and the scan goes on
abbrev first : Look
first = record { before = 1; after = 1; by_done = false; fails = false; gives = 9 }

-- the scan is over
abbrev over : ℕ → Look
over n = record { before = n; after = n; by_done = true; fails = false; gives = 9 }

abbrev calls : List Call
calls =
    record { size = 4; in_time = false; looks = first ∷ [] }
    ∷ record { size = 4; in_time = true; looks = over 2 ∷ [] }
    ∷ record { size = 4; in_time = false; looks = over 2 ∷ [] }
    ∷ record { size = 4; in_time = false; looks = over 2 ∷ [] }
    ∷ []

-- The four calls give a byte, the rest of the file, the tail and the end.
session-good : (session good job calls new_trickle_body).received ≡ codes "abcd"
unfolding session read trickle read_one on_result flush_read read_file read_tail read_stream
    new_trickle_body
session-good = refl

session_ends : (session good job calls new_trickle_body).ended ≡ true
unfolding session read trickle read_one on_result flush_read read_file read_tail read_stream
    new_trickle_body
session_ends = refl

session-bad : (session bad job calls new_trickle_body).received ≡ codes "a"
unfolding session read trickle read_one on_result flush_read read_file read_tail read_stream
    new_trickle_body
session-bad = refl

first-IsLook : IsLook job first
first-IsLook = record { before_fits = omega arith; after_full = λ h. ground arith }

over-IsLook : IsLook job (over 2)
over-IsLook = record { before_fits = omega arith; after_full = λ _. refl }

job_calls : All (IsCall job) calls
job_calls = ((first-IsLook, tt), ((over-IsLook, tt), ((over-IsLook, tt), ((over-IsLook, tt), tt))))

fresh_job-IsNew : IsNew fresh_job
fresh_job-IsNew = record { silent = refl; no_tail = refl }

abbrev two_calls : List Call
two_calls =
    record { size = 4; in_time = true; looks = over 2 ∷ [] }
    ∷ record { size = 4; in_time = false; looks = over 2 ∷ [] }
    ∷ []

-- The calls on the job that a scan of the body `ab` leaves.
scan_calls :
    (scan : Text → Bool → Reading)
    → (scanned_job identity scan limits two fresh_job none fresh_job-IsNew).job.file ≡ codes "ab"
    → All
        (IsCall (scanned_job identity scan limits two fresh_job none fresh_job-IsNew).job)
        two_calls
scan_calls scan e = ((here, tt), ((here, tt), tt))
  where
    here : IsLook (scanned_job identity scan limits two fresh_job none fresh_job-IsNew).job (over 2)
    here = record { before_fits = rw e (omega arith); after_full = λ _. rw e refl }

ok_file :
    (scanned_job identity ok_scan limits two fresh_job none fresh_job-IsNew).job.file ≡ codes "ab"
unfolding run_scan scan_open normal_scan limited fails conclude end_verdict close_up set_result send
    write_file merged scan_reader bytewise
ok_file = refl

ok_clean : (reported identity ok_scan limits two fresh_job none fresh_job-IsNew).clean ≡ true
unfolding run_scan scan_open normal_scan limited fails conclude end_verdict close_up set_result send
    write_file merged scan_reader bytewise
ok_clean = (run_scan-Reports identity ok_scan true limits two fresh_job none fresh_job-IsNew).agrees

ends_ok :
    (ok : Bool) (threat : Text)
    → ok ≡ true
    → (session
        (record { clean = ok; threat_name = threat })
        (scanned_job identity ok_scan limits two fresh_job none fresh_job-IsNew).job
        two_calls
        new_trickle_body).ended
      ≡ true
unfolding run_scan scan_open normal_scan limited fails conclude end_verdict close_up set_result send
    write_file merged scan_reader bytewise session read trickle read_one on_result flush_read
    read_file read_tail read_stream new_trickle_body
ends_ok true threat _ = refl
ends_ok false threat h = absurd (ground arith)

client_whole_example :
    ((session
        (reported identity ok_scan limits two fresh_job none fresh_job-IsNew)
        (scanned_job identity ok_scan limits two fresh_job none fresh_job-IsNew).job
        two_calls
        new_trickle_body).received
      ≡ codes "ab")
    × ((reported identity ok_scan limits two fresh_job none fresh_job-IsNew).clean ≡ true)
unfolding run_scan scan_open normal_scan limited fails conclude end_verdict close_up set_result send
    write_file merged scan_reader bytewise
client_whole_example =
    client_whole identity ok_scan limits two fresh_job none fresh_job-IsNew refl refl
      (scan_reader-IsScanner (peer (codes "stream: OK")) bytewise bytewise-IsCut) refl two_calls
      (scan_calls ok_scan ok_file) (ends_ok _ _ ok_clean)

bad_file :
    (scanned_job identity found_scan limits two fresh_job none fresh_job-IsNew).job.file
    ≡ codes "ab"
unfolding run_scan scan_open normal_scan limited fails conclude end_verdict close_up set_result send
    write_file merged scan_reader bytewise
bad_file = refl

abbrev infected_session : Session
infected_session = called identity found_scan limits two fresh_job none fresh_job-IsNew two_calls

infected_open_end : infected_session.ended ≡ false
unfolding run_scan scan_open normal_scan limited fails conclude end_verdict close_up set_result send
    write_file merged scan_reader bytewise
infected_open_end =
    (client-infected identity found_scan limits two fresh_job none fresh_job-IsNew refl two_calls
      (scan_calls found_scan bad_file)).0

abbrev no_text : ℕ → Text
no_text _ = []

abbrev trickled : UpResponse
trickled = record {
  status_code = 200;
  status = codes "OK";
  header = [];
  content_length = none;
  close = false;
  reads = infected_session.received ∷ [];
  fails = true;
}

trickled-IsPlainHead : IsPlainHead no_text trickled
unfolding reason header_lines
trickled-IsPlainHead = record { no_switch = refl; inline_reason = ground arith; inline_fields = tt }

trickled-IsCopied : IsCopied infected_session trickled
trickled-IsCopied = record {
  no_length = refl;
  kept = refl;
  copied = append-nil infected_session.received;
  failed = sym (ap not infected_open_end);
}

read_message-infected_example :
    (infected_session.ended ≡ false)
    × (length infected_session.received ≤ 2)
    × (read_message 9
          (loop_write_head no_text trickled ++ (loop_write_body trickled ++ codes "HTTP"))
        ≡ some (infected_session.received, codes "HTTP"))
unfolding run_scan scan_open normal_scan limited fails conclude end_verdict close_up set_result send
    write_file merged scan_reader bytewise
read_message-infected_example =
    read_message-infected identity found_scan limits two fresh_job none fresh_job-IsNew refl
      two_calls (scan_calls found_scan bad_file) no_text trickled trickled-IsPlainHead
      trickled-IsCopied 9 (codes "HTTP") (omega arith)
