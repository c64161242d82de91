-- ===== src/Logger/Message.antt =====
-- internal/logger/record.go and syslog5424.go: a record of the access log and its RFC 5424 message. The
-- text of the time is the Go library's, and stands in the record.
pub mod RoundTrip
mod Tests
use i_filter_imitation.Common.{ℕ, List, [], ◌∷◌, ◌++◌, Text, codes, print_number}
use i_filter_imitation.Logger.Escape.{nilify, write_param}

pub record AccessRecord : Type 0 where
  pub time : Text
  pub request_id : Text
  pub client_ip : Text
  pub x_forwarded_for : Text
  pub method : Text
  pub scheme : Text
  pub host : Text
  pub path : Text
  pub status_code : ℕ
  pub bytes_sent : ℕ
  pub duration_ms : ℕ
  pub user_agent : Text
  pub content_type : Text
  pub tls_version : Text
  pub tls_cipher : Text
  pub event_type : Text
  pub block_reason : Text

abbrev pub sd_id : Text
sd_id = codes "httpAccess@32473"

unfoldable pub event_type_of : AccessRecord → Text
event_type_of r = elim r.event_type [ [] ↦ codes "access" | c ∷ s ↦ c ∷ s ]

-- the table of buildSD: names and values
unfoldable pub fields : AccessRecord → List (Text × Text)
unfolding event_type_of print_number
fields r =
    (codes "eventType", event_type_of r)
    ∷ (codes "blockReason", r.block_reason)
    ∷ (codes "requestId", r.request_id)
    ∷ (codes "clientIP", r.client_ip)
    ∷ (codes "xForwardedFor", r.x_forwarded_for)
    ∷ (codes "method", r.method)
    ∷ (codes "scheme", r.scheme)
    ∷ (codes "host", r.host)
    ∷ (codes "path", r.path)
    ∷ (codes "status", print_number 10 r.status_code)
    ∷ (codes "bytes", print_number 10 r.bytes_sent)
    ∷ (codes "durationMS", print_number 10 r.duration_ms)
    ∷ (codes "userAgent", r.user_agent)
    ∷ (codes "contentType", r.content_type)
    ∷ (codes "tlsVersion", r.tls_version)
    ∷ (codes "tlsCipher", r.tls_cipher)
    ∷ []

unfoldable pub write_params : List (Text × Text) → Text
unfolding write_param
write_params [] = []
write_params ((k, v) ∷ fs) = write_param k v ++ write_params fs

unfoldable pub build_sd : AccessRecord → Text
unfolding fields write_params
build_sd r = b'[' ∷ sd_id ++ write_params (fields r) ++ codes "]"

unfoldable pub format5424 : AccessRecord → Text → Text → Text → Text
unfolding build_sd print_number nilify
format5424 r hostname app_name proc_id =
    codes "<14>1 "
    ++ r.time
    ++ codes " "
    ++ nilify hostname
    ++ codes " "
    ++ nilify app_name
    ++ codes " "
    ++ nilify proc_id
    ++ codes " - "
    ++ build_sd r
    ++ codes " - "
    ++ r.method
    ++ codes " "
    ++ r.scheme
    ++ codes "://"
    ++ r.host
    ++ r.path
    ++ codes " "
    ++ print_number 10 r.status_code
