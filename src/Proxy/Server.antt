-- ===== src/Proxy/Server.antt =====
-- internal/proxy/handler.go and magichost.go: the front server, which routes what a client sends to it.
-- The ReverseProxy of net/http/httputil is an input: what it writes to the client, and whether it ends by
-- a panic with http.ErrAbortHandler, as it does when the copying of the body fails. The fields of a log record that only describe the client are left out.
pub mod Routes
mod Tests
use i_filter_imitation.Common.{
  ℕ, ◌+◌, List, [], ◌∷◌, Bool, true, false, Option, none, some, ◌==◌, if◌then◌else◌, Text, codes,
  text_eq, has_prefix,
}
use i_filter_imitation.Proxy.Blocklist.{Blocklist, is_blocked}
use i_filter_imitation.Proxy.ScanTransport.{magic_host}
use i_filter_imitation.Proxy.Tunnel.{LogRecord, emit_log}
use i_filter_imitation.Scan.Endpoint.{Reply, path_prefix, serve_http}
use i_filter_imitation.Scan.Manager.{Manager}

pub record WebRequest : Type 0 where
  pub method : Text
  pub url_host : Text
  pub url_path : Text
  pub host : Text
  pub query_id : Text

-- What the ReverseProxy does to the response writer: a header with its status, or bytes of the body.
pub data WriterEvent : Type 0 where
  write_header : ℕ → WriterEvent
  write : Text → WriterEvent

-- What `rp.ServeHTTP` does; a handler that aborts does not come back.
pub record Proxied : Type 0 where
  pub events : List WriterEvent
  pub aborts : Bool

-- No scanner is none, and so is no PAC file; `has_sender` is a log server.
pub record Server : Type 0 where
  pub blocklist : Option Blocklist
  pub manager : Option Manager
  pub pac_content : Option Text
  pub ca_cert_pem : Text
  pub ca_cert_der : Text
  pub has_sender : Bool

unfoldable pub new_server :
    Text → Text → Bool → Option Blocklist → Option Manager → Option Text → Server
new_server pem der has_sender bl mgr pac = record {
  blocklist = bl;
  manager = mgr;
  pac_content = pac;
  ca_cert_pem = pem;
  ca_cert_der = der;
  has_sender = has_sender;
}

-- What a request leads to. A tunnel goes to its host; a request that is forwarded, to the host and by the
-- scheme that stand with it.
pub data Served : Type 0 where
  tunnel : Text → Served
  scan_page : Reply → Served
  pac : Text → Served
  cert_pem cert_der : Text → Served
  not_found : Served
  blocked_page : Text → Served
  forwarded : Text → Text → Served

-- the status that `responseRecorder` holds after the events
unfoldable pub record_status : List WriterEvent → ℕ → ℕ
record_status [] status = status
record_status (write_header code ∷ es) status = record_status es code
record_status (write b ∷ es) status = record_status es (if status == 0 then 200 else status)

-- http.NotFoundHandler where there is no scanner
unfoldable pub serve_scan : Bool → WebRequest → Server → Served
unfolding serve_http
serve_scan opens r s = elim s.manager [
  | none ↦ not_found
  | some m ↦ scan_page (serve_http opens r.method r.url_path r.query_id m)
]

unfoldable pub serve_cert : WebRequest → Server → Served
unfolding text_eq
serve_cert r s =
    if text_eq r.url_path (codes "/cert.pem")
    then cert_pem s.ca_cert_pem
    else if text_eq r.url_path (codes "/cert.crt")
    then cert_der s.ca_cert_der
    else not_found

unfoldable pub serve_magic_host : Bool → WebRequest → Server → Served
unfolding has_prefix serve_scan serve_cert
serve_magic_host opens r s =
    if has_prefix r.url_path path_prefix then serve_scan opens r s else serve_cert r s

-- the request for the server itself
unfoldable pub serve_own : Bool → WebRequest → Server → Served
unfolding has_prefix text_eq serve_scan serve_cert
serve_own opens r s =
    if has_prefix r.url_path path_prefix then serve_scan opens r s else elim s.pac_content [
      | none ↦ serve_cert r s
      | some content ↦
          if text_eq r.url_path (codes "/proxy.pac") then pac content else serve_cert r s
    ]

-- The request goes out to its Host, and its record has what the recorder saw; there is none if the
-- ReverseProxy aborts.
unfoldable pub handle_plain : Text → Proxied → WebRequest → Server → Served × List LogRecord
unfolding record_status
handle_plain scheme p r s = (
  forwarded scheme r.host,
  if p.aborts
      then []
      else emit_log s.has_sender
          (record { host = r.host; status_code = record_status p.events 0; is_block = false }),
)

unfoldable pub serve_http_request : Bool → Proxied → WebRequest → Server → Served × List LogRecord
unfolding text_eq serve_magic_host serve_own handle_plain
serve_http_request opens p r s =
    if text_eq r.method (codes "CONNECT")
    then (tunnel r.host, [])
    else if text_eq r.url_host magic_host
    then (serve_magic_host opens r s, [])
    else if text_eq r.url_host []
    then (serve_own opens r s, [])
    else if is_blocked s.blocklist r.host
    then (
      blocked_page r.host,
      emit_log s.has_sender (record { host = r.host; status_code = 403; is_block = true }),
    )
    else handle_plain (codes "http") p r s
