-- ===== src/Scan/Samples.antt =====
-- Test data that the tests of several modules share.
use i_filter_imitation.Common.{[], Bool, true, false, Option, none, some, Text, codes, length}
use i_filter_imitation.Scan.Status.{pending, ScanResult}
use i_filter_imitation.Scan.Cache.{unavailable}
use i_filter_imitation.Scan.Clamd.{Peer, Reading, scan_reader}
use i_filter_imitation.Scan.Clamd.Laws.{bytewise}
use i_filter_imitation.Scan.Job.{Job, Body, ScanEnv}
use i_filter_imitation.Scan.Manager.{Request, Response, Manager, new_manager}

abbrev pub job_with : Text → Option Text → Job
job_with file tail = record {
  id = codes "id";
  filename = codes "f";
  content_type = codes "application/zip";
  content_encoding = [];
  original_url = codes "http://a/f";
  temp_path = codes "/tmp/id";
  created_at = 0;
  file = file;
  written = length file;
  tail_body = tail;
  status = pending;
  threat_name = [];
  events = [];
}

abbrev pub good : ScanResult
good = record { clean = true; threat_name = [] }

abbrev pub bad : ScanResult
bad = record { clean = false; threat_name = codes "EICAR" }

abbrev pub fresh_job : Job
fresh_job = job_with [] none

abbrev pub identity : Text → Text
identity s = s

abbrev pub peer : Text → Peer
peer line = record { accepts = true; takes_command = true; writes = 100; answer = some line }

abbrev pub scan_with : Text → Text → Bool → Reading
scan_with line = scan_reader (peer line) bytewise

abbrev pub limits : ScanEnv
limits = record {
  opens = true;
  limit = 9;
  limit_after = 9;
  url_at = 1;
  hash_at = 2;
  store_at = 3;
  url_reply = unavailable;
  hash_reply = unavailable;
}

abbrev pub two : Body
two = record { content = codes "ab"; broken = false }

abbrev pub ok_scan : Text → Bool → Reading
ok_scan = scan_with (codes "stream: OK")

abbrev pub found_scan : Text → Bool → Reading
found_scan = scan_with (codes "stream: EICAR FOUND")

abbrev pub request : Text → Request
request accept = record { url = codes "http://a/f.zip"; path = codes "/f.zip"; accept = accept }

abbrev pub zip : Response
zip = record {
  status_code = 200;
  content_type = codes "application/zip";
  content_encoding = [];
  content_disposition = [];
  content_length = none;
  body = two;
}

abbrev pub manager : Manager
manager = new_manager (codes "/tmp") 100 9 none
