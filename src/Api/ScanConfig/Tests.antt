-- ===== src/Api/ScanConfig/Tests.antt =====
-- A store of settings whose limit is changed, also to one that is too great.
use i_filter_imitation.Common.{
  ◌^◌, ◌<◌, ◌≤◌, ◌%◌, [], ◌∷◌, true, false, none, some, Text, codes, text_eq, parse_int,
  parse_digits, parse_uint, positive, negative, ◌≡◌, ◌↔◌, ◌⊎◌, refl, arith,
}
use i_filter_imitation.Scan.Samples.{identity, manager, request, zip}
use i_filter_imitation.Scan.Cache.{unavailable}
use i_filter_imitation.Scan.Config.{is_scannable}
use i_filter_imitation.Scan.Manager.{lookup_url}
use i_filter_imitation.Proxy.ScanTransport.{TripEnv, round_trip}
use i_filter_imitation.Proxy.ScanTransport.Laws.{passes, CachedClean}
use i_filter_imitation.Api.ScanConfig.{
  ScanStore, Statements, find_setting, max_size_of, config_of, update_scan_setting, has_setting,
  set_setting, sync_scan_config_to_redis, build_scan_config,
}
use i_filter_imitation.Api.ScanConfig.Handlers.{
  ScanCall, patch_setting, handle_scan, handle_patch_scan_setting,
}
use i_filter_imitation.Api.ScanConfig.Sync.{ScanOutcome, handle_scan-Outcome}
use i_filter_imitation.Api.ScanConfig.Limit.{
  TooLong, loaded_manager, round_trip-config_of, round_trip-huge_limit,
}

abbrev limit_text : Text → ScanStore
limit_text v = record {
  settings = record { key = codes "max_size_mb"; value = v; updated_by = [] } ∷ [];
  mime_types = [];
  config = none;
  notices = 0;
}

abbrev all_succeed : Statements
all_succeed = record { change = true; read_settings = true; read_mime_types = true; redis = true }

abbrev no_redis : Statements
no_redis = record { change = true; read_settings = true; read_mime_types = true; redis = false }

limits :
    (max_size_of (limit_text (codes "12")).settings ≡ 12)
    × (max_size_of (limit_text (codes "-12")).settings ≡ 500)
    × (max_size_of (limit_text (codes "12x")).settings ≡ 500)
    × (max_size_of (limit_text (codes "99999999999999999999")).settings ≡ 9223372036854775807)
unfolding max_size_of find_setting parse_int parse_digits parse_uint positive negative text_eq
limits = (refl, refl, refl, refl)

abbrev patch_limit : ScanCall
patch_limit =
    patch_setting (some (record { key = codes "max_size_mb"; value = codes "7"; actor = [] }))

statuses :
    ((handle_scan all_succeed patch_limit (limit_text (codes "12"))).0.status ≡ 204)
    × ((handle_scan no_redis patch_limit (limit_text (codes "12"))).0.status ≡ 500)
unfolding handle_scan handle_patch_scan_setting update_scan_setting has_setting set_setting
    sync_scan_config_to_redis build_scan_config text_eq
statuses = (refl, refl)

handle_scan-Outcome_example :
    ScanOutcome
      (limit_text (codes "12"))
      (handle_scan all_succeed patch_limit (limit_text (codes "12")))
handle_scan-Outcome_example = handle_scan-Outcome all_succeed patch_limit (limit_text (codes "12"))

abbrev trip : TripEnv
trip = record { id = codes "id"; now = 5; creates = true; opens = true; url_reply = unavailable }

small : max_size_of (limit_text (codes "12")).settings < 2 ^ 43
unfolding max_size_of find_setting parse_int parse_digits parse_uint positive negative text_eq
small = omega arith

round_trip-config_of_example :
    let m = loaded_manager (limit_text (codes "12")) manager in
    (passes (round_trip identity trip (request (codes "curl")) (some zip) m).0 ≡ true) ↔ (
      (is_scannable (config_of (limit_text (codes "12"))) zip.content_type ≡ false)
      ⊎ TooLong (config_of (limit_text (codes "12"))) zip.content_length
      ⊎ CachedClean (lookup_url identity trip.now trip.url_reply (request (codes "curl")).url m).0)
round_trip-config_of_example =
    round_trip-config_of (limit_text (codes "12")) identity trip (request (codes "curl")) zip
      manager small

abbrev great : Text
great = codes "8796093022208"

huge : 2 ^ 43 ≤ max_size_of (limit_text great).settings % 2 ^ 44
unfolding max_size_of find_setting parse_int parse_digits parse_uint positive negative text_eq
huge = omega arith

round_trip-huge_limit_example :
    passes
      (round_trip identity trip
        (request (codes "curl"))
        (some zip)
        (loaded_manager (limit_text great) manager)).0
    ≡ true
round_trip-huge_limit_example =
    round_trip-huge_limit (limit_text great) identity trip (request (codes "curl")) zip manager huge
