-- ===== src/Scan/Endpoint.antt =====
-- internal/scan/endpoint.go: the handler of the pages under /scan/. What http.ServeContent, the JSON
-- encoder and the page template write is left as the data they are given.
pub mod Laws
pub mod Browser
mod Tests
use i_filter_imitation.Common.{
  ◌++◌, List, [], ◌∷◌, Bool, true, false, Option, none, some, if◌then◌else◌, Text, codes, text_eq,
}
use i_filter_imitation.Scan.Status.{
  ScanStatus, pending, scanning, clean, infected, error, too_large,
}
use i_filter_imitation.Scan.Job.{Job}
use i_filter_imitation.Scan.Manager.{Manager, get_job, Download, serve_file}

abbrev pub path_prefix : Text
path_prefix = codes "/scan/"

abbrev pub path_status : Text
path_status = path_prefix ++ codes "status"

abbrev pub path_download : Text
path_download = path_prefix ++ codes "download"

abbrev pub path_result : Text
path_result = path_prefix ++ codes "result"

pub record StatusResp : Type 0 where
  pub status : Text
  pub threat : Text

-- The four values that RenderScanPage puts into the template.
pub record ScanPage : Type 0 where
  pub title : Text
  pub status_url : Text
  pub download_url : Text
  pub filename : Text

pub data Reply : Type 0 where
  no_content not_found forbidden : Reply
  json : StatusResp → Reply
  served : Download → Reply
  page : ScanPage → Reply

unfoldable pub status_text : ScanStatus → Text
status_text pending = codes "pending"
status_text scanning = codes "scanning"
status_text clean = codes "clean"
status_text infected = codes "infected"
status_text too_large = codes "toobig"
status_text error = codes "error"

unfoldable pub status_resp : Job → StatusResp
unfolding status_text
status_resp job = record {
  status = status_text job.status;
  threat = elim job.status [ infected ↦ job.threat_name | _ ↦ [] ];
}

unfoldable pub handle_status : Text → Manager → Reply
unfolding get_job status_resp
handle_status id m = elim (get_job id m) [ none ↦ not_found | some job ↦ json (status_resp job) ]

unfoldable pub handle_download : Bool → Text → Manager → Reply
unfolding get_job serve_file
handle_download opens id m = elim (get_job id m) [
  | none ↦ not_found
  | some job ↦ elim (serve_file opens job m) [ none ↦ forbidden | some d ↦ served d ]
]

unfoldable pub render_scan_page : Text → Text → ScanPage
render_scan_page job_id filename = record {
  title = filename;
  status_url = path_status ++ codes "?id=" ++ job_id;
  download_url = path_download ++ codes "?id=" ++ job_id;
  filename = filename;
}

unfoldable pub handle_result : Text → Manager → Reply
unfolding get_job render_scan_page
handle_result id m = elim (get_job id m) [
  | none ↦ not_found
  | some job ↦ page (render_scan_page job.id job.filename)
]

-- `ServeHTTP`: the method, the path and the id of the query.
unfoldable pub serve_http : Bool → Text → Text → Text → Manager → Reply
unfolding text_eq handle_status handle_download handle_result
serve_http opens method path id m =
    if text_eq method (codes "OPTIONS")
    then no_content
    else if text_eq path path_status
    then handle_status id m
    else if text_eq path path_download
    then handle_download opens id m
    else if text_eq path path_result
    then handle_result id m
    else not_found
