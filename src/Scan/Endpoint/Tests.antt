-- ===== src/Scan/Endpoint/Tests.antt =====
-- The pages of a job, and a browser's download of the body `ab`.
use i_filter_imitation.Common.{[], Bool, true, Text, codes, ◌≡◌, refl, arith}
use i_filter_imitation.Scan.Clamd.{Reading, scan_reader}
use i_filter_imitation.Scan.Clamd.Laws.{scan_reader-IsScanner, bytewise, bytewise-IsCut}
use i_filter_imitation.Scan.Job.{
  Ended, run_scan, scan_open, normal_scan, limited, fails, conclude, end_verdict, close_up,
  set_result, send, write_file, merged,
}
use i_filter_imitation.Scan.Manager.{Manager, Download, new_manager, start_browser_job, new_job}
use i_filter_imitation.Scan.Endpoint.{forbidden, json, served, handle_download, handle_status}
use i_filter_imitation.Scan.Endpoint.Browser.{
  finished, scan_end, handle_download-clean, handle_download-infected,
}
use i_filter_imitation.Scan.Samples.{
  identity, peer, limits, bad, ok_scan, found_scan, request, zip, manager,
}

abbrev browser_end : (Text → Bool → Reading) → Ended
browser_end scan = scan_end identity scan (codes "id") 1 (request []) zip manager limits

abbrev browser_manager : (Text → Bool → Reading) → Manager
browser_manager scan = finished identity scan (codes "id") 1 (request []) zip manager limits

handle_download-clean_example :
    (d : Download) × (handle_download true (codes "id") (browser_manager ok_scan) ≡ served d)
    × (d.content ≡ codes "ab")
unfolding run_scan scan_open normal_scan limited fails conclude end_verdict close_up set_result send
    write_file merged scan_reader bytewise start_browser_job new_job new_manager
handle_download-clean_example =
    handle_download-clean identity ok_scan (codes "id") 1 (request []) zip manager limits refl
      (scan_reader-IsScanner (peer (codes "stream: OK")) bytewise bytewise-IsCut) refl

handle_download-infected_example :
    (handle_download true (codes "id") (browser_manager found_scan) ≡ forbidden)
    × (handle_status (codes "id") (browser_manager found_scan)
        ≡ json (record { status = codes "infected"; threat = codes "EICAR" }))
unfolding run_scan scan_open normal_scan limited fails conclude end_verdict close_up set_result send
    write_file merged scan_reader bytewise start_browser_job new_job new_manager
handle_download-infected_example =
    handle_download-infected identity found_scan (codes "id") 1 (request []) zip manager limits true
      bad refl tt refl (omega arith) refl refl
