-- ===== src/Logger/Message/Tests.antt =====
-- A record whose user agent has bytes that are escaped.
use i_filter_imitation.Common.{[], ◌++◌, some, codes, ◌≡◌, refl}
use i_filter_imitation.Logger.Message.{AccessRecord, fields, event_type_of, build_sd}
use i_filter_imitation.Logger.Message.RoundTrip.{names_of, values_of, read_sd, read_sd-build_sd}

abbrev seen : AccessRecord
seen = record {
  time = codes "2024-01-01T00:00:00Z";
  request_id = codes "1";
  client_ip = codes "10.0.0.1";
  x_forwarded_for = [];
  method = codes "GET";
  scheme = codes "https";
  host = codes "a.com";
  path = codes "/?q=]";
  status_code = 200;
  bytes_sent = 12;
  duration_ms = 3;
  user_agent = codes "x\"y]";
  content_type = [];
  tls_version = [];
  tls_cipher = [];
  event_type = [];
  block_reason = [];
}

is_access : event_type_of seen ≡ codes "access"
unfolding event_type_of
is_access = refl

read_sd-build_sd_example :
    read_sd (names_of (fields seen)) (build_sd seen ++ codes " - GET")
    ≡ some (values_of (fields seen), codes " - GET")
read_sd-build_sd_example = read_sd-build_sd seen (codes " - GET")
