-- ===== src/Proxy/Server/Tests.antt =====
-- A server without a scanner that blocks one host.
use i_filter_imitation.Common.{
  List, [], ◌∷◌, true, false, none, some, Text, codes, text_eq, has_prefix, cut_prefix, ◌≡◌, refl,
}
use i_filter_imitation.Proxy.Blocklist.{new_blocklist}
use i_filter_imitation.Proxy.Server.{
  WebRequest, WriterEvent, Proxied, write_header, Server, new_server, cert_pem, not_found,
  serve_http_request, serve_own, serve_cert, record_status,
}
use i_filter_imitation.Proxy.Server.Routes.{Routed, serve_http_request-Routed}

abbrev server : Server
server =
    new_server (codes "pem") (codes "der") true (some (new_blocklist (codes "a.com" ∷ []))) none
      none

abbrev own_request : Text → WebRequest
own_request path = record {
  method = codes "GET";
  url_host = [];
  url_path = path;
  host = codes "proxy";
  query_id = [];
}

abbrev plain_request : WebRequest
plain_request = record {
  method = codes "GET";
  url_host = codes "b.com";
  url_path = codes "/";
  host = codes "b.com";
  query_id = [];
}

abbrev events : List WriterEvent
events = write_header 103 ∷ write_header 204 ∷ []

abbrev proxied : Proxied
proxied = record { events = events; aborts = false }

own_pages :
    ((serve_http_request true proxied (own_request (codes "/cert.pem")) server).0
      ≡ cert_pem (codes "pem"))
    × ((serve_http_request true proxied (own_request (codes "/proxy.pac")) server).0 ≡ not_found)
    × (record_status events 0 ≡ 204)
unfolding serve_http_request serve_own serve_cert text_eq has_prefix cut_prefix new_server
    record_status
own_pages = (refl, refl, refl)

serve_http_request-Routed_example :
    Routed proxied plain_request server (serve_http_request true proxied plain_request server)
serve_http_request-Routed_example = serve_http_request-Routed true proxied plain_request server
