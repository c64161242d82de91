-- ===== src/Proxy/ScanTransport/Tests.antt =====
-- Round trips for a zip file: not cached, and cached as infected.
use i_filter_imitation.Common.{
  [], true, false, none, some, codes, text_eq, ◌≡◌, refl, to_lower, trim_space, trim, drop_while,
  is_space, lower, before_byte, has_prefix, trim_suffix,
}
use i_filter_imitation.Scan.Status.{infected}
use i_filter_imitation.Scan.Config.{
  is_scannable, any_rule, media_type, rule_matches, default_scan_config,
}
use i_filter_imitation.Scan.Cache.{
  ResultCache, unavailable, new_result_cache, empty_shelf, store, store_mem, get_by_url, get, find,
  hex,
}
use i_filter_imitation.Scan.Manager.{Manager, new_manager, lookup_url}
use i_filter_imitation.Scan.Endpoint.{forbidden, json, handle_status, handle_download}
use i_filter_imitation.Scan.Samples.{identity, request, zip}
use i_filter_imitation.Proxy.ScanTransport.{
  TripEnv, redirected, scan_redirect_response, exceeds, round_trip,
}
use i_filter_imitation.Proxy.ScanTransport.Laws.{round_trip-infected}

abbrev trip : TripEnv
trip = record { id = codes "id"; now = 5; creates = true; opens = true; url_reply = unavailable }

abbrev infected_cache : ResultCache
infected_cache =
    (store identity 1 (codes "http://a/f.zip") (codes "hash") infected (codes "EICAR")
      (new_result_cache 100 100 10 false)).0

abbrev cached : Manager
cached = new_manager (codes "/tmp") 100 9 (some infected_cache)

round_trip-infected_example :
    let r = round_trip identity trip (request []) (some zip) cached in
    (r.0 ≡ redirected (scan_redirect_response (codes "id")) none)
    × (handle_status (codes "id") r.1
        ≡ json (record { status = codes "infected"; threat = codes "EICAR" }))
    × (handle_download true (codes "id") r.1 ≡ forbidden)
unfolding new_manager default_scan_config is_scannable any_rule media_type rule_matches text_eq
    to_lower trim_space trim drop_while is_space lower before_byte has_prefix trim_suffix exceeds
    lookup_url get_by_url get find hex store store_mem new_result_cache empty_shelf
round_trip-infected_example =
    round_trip-infected identity trip (request []) zip cached (codes "EICAR") true refl refl refl
