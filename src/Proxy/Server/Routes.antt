-- ===== src/Proxy/Server/Routes.antt =====
-- Where a request goes.
use mathlib.Core.Bool.{false≢true}
use i_filter_imitation.Common.{
  List, [], Bool, true, false, Text, codes, text_eq, text_eq→eq, text_eq_refl, has_prefix, ◌≡◌, ◌≢◌,
  ◌⊎◌, refl, sym, ap, ◌∙◌, if_intro, if◌then◌else◌, option_intro, inl, inr,
}
use i_filter_imitation.Proxy.Blocklist.{is_blocked}
use i_filter_imitation.Proxy.ScanTransport.{magic_host}
use i_filter_imitation.Proxy.Tunnel.{LogRecord, emit_log}
use i_filter_imitation.Proxy.Server.{
  WebRequest, Proxied, Server, Served, tunnel, scan_page, pac, cert_pem, cert_der, not_found,
  blocked_page, forwarded, record_status, serve_scan, serve_cert, serve_magic_host, serve_own,
  handle_plain, serve_http_request,
}
use i_filter_imitation.Scan.Endpoint.{path_prefix}

-- A request that is neither a CONNECT nor for the proxy itself.
pub record IsPlain (r : WebRequest) : Type 0 where
  pub no_connect : r.method ≢ codes "CONNECT"
  pub no_magic : r.url_host ≢ magic_host
  pub other_host : r.url_host ≢ []

-- A served file or page of the proxy itself.
abbrev pub is_page : Served → Bool
is_page (tunnel h) = false
is_page (forwarded sc h) = false
is_page (blocked_page h) = false
is_page (scan_page reply) = true
is_page (pac content) = true
is_page (cert_pem content) = true
is_page (cert_der content) = true
is_page not_found = true

-- What a request leads to: a tunnel for a CONNECT, a page of the proxy where the request is for it, the
-- blocked page or the upstream of its Host, each with its log.
pub data Routed (p : Proxied) (r : WebRequest) (s : Server) (o : Served × List LogRecord)
    : Type 0 where
  connects : r.method ≡ codes "CONNECT" → o ≡ (tunnel r.host, []) → Routed p r s o
  pages :
      (r.url_host ≡ magic_host) ⊎ (r.url_host ≡ []) → is_page o.0 ≡ true → o.1 ≡ [] → Routed p r s o
  blocks :
      IsPlain r
      → is_blocked s.blocklist r.host ≡ true
      → o.0 ≡ blocked_page r.host
      → o.1 ≡ emit_log s.has_sender (record { host = r.host; status_code = 403; is_block = true })
      → Routed p r s o
  forwards :
      IsPlain r
      → is_blocked s.blocklist r.host ≡ false
      → o.0 ≡ forwarded (codes "http") r.host
      → o.1 ≡ (
          if p.aborts
          then []
          else emit_log s.has_sender
              (record { host = r.host; status_code = record_status p.events 0; is_block = false }))
      → Routed p r s o

serve_scan-is_page :
    (opens : Bool) (r : WebRequest) (s : Server) → is_page (serve_scan opens r s) ≡ true
unfolding serve_scan
serve_scan-is_page opens r s =
    option_intro (λ (x : Served). is_page x ≡ true) s.manager _ _ (λ _. refl) (λ _ _. refl)

serve_cert-is_page : (r : WebRequest) (s : Server) → is_page (serve_cert r s) ≡ true
unfolding serve_cert
serve_cert-is_page r s =
    if_intro (λ (x : Served). is_page x ≡ true) (text_eq r.url_path (codes "/cert.pem")) _ _
      (λ _. refl)
      (λ _.
        if_intro (λ (x : Served). is_page x ≡ true) (text_eq r.url_path (codes "/cert.crt")) _ _
          (λ _. refl) (λ _. refl))

serve_magic_host-is_page :
    (opens : Bool) (r : WebRequest) (s : Server) → is_page (serve_magic_host opens r s) ≡ true
unfolding serve_magic_host
serve_magic_host-is_page opens r s =
    if_intro (λ (x : Served). is_page x ≡ true) (has_prefix r.url_path path_prefix) _ _
      (λ _. serve_scan-is_page opens r s) (λ _. serve_cert-is_page r s)

serve_own-is_page :
    (opens : Bool) (r : WebRequest) (s : Server) → is_page (serve_own opens r s) ≡ true
unfolding serve_own
serve_own-is_page opens r s =
    if_intro (λ (x : Served). is_page x ≡ true) (has_prefix r.url_path path_prefix) _ _
      (λ _. serve_scan-is_page opens r s)
      (λ _.
        option_intro (λ (x : Served). is_page x ≡ true) s.pac_content _ _
          (λ _. serve_cert-is_page r s)
          (λ content _.
            if_intro (λ (x : Served). is_page x ≡ true) (text_eq r.url_path (codes "/proxy.pac")) _
              _ (λ _. refl) (λ _. serve_cert-is_page r s)))

differs : (a b : Text) → text_eq a b ≡ false → a ≢ b
differs a b h e = absurd (false≢true (sym h ∙ ap (text_eq a) (sym e) ∙ text_eq_refl a))

-- Every request is routed by its method, the host of its URL and the blocklist: a tunnel for a CONNECT,
-- with no log; a page of the proxy itself for its own hosts, with no log; and for any other the blocked
-- page if its Host is blocked, and else its Host as the upstream. With a log server a blocked request
-- has one log record, and a forwarded one has one too unless the ReverseProxy aborts it, which leaves
-- none. Nothing that is blocked is forwarded.
pub serve_http_request-Routed :
    (opens : Bool) (p : Proxied) (r : WebRequest) (s : Server)
    → Routed p r s (serve_http_request opens p r s)
unfolding serve_http_request handle_plain
serve_http_request-Routed opens p r s =
    if_intro P (text_eq r.method (codes "CONNECT")) _ _ (λ h. connects (text_eq→eq _ _ h) refl)
      (λ a.
        if_intro P (text_eq r.url_host magic_host) _ _
          (λ h. pages (inl (text_eq→eq _ _ h)) (serve_magic_host-is_page opens r s) refl)
          (λ b.
            if_intro P (text_eq r.url_host []) _ _
              (λ h. pages (inr (text_eq→eq _ _ h)) (serve_own-is_page opens r s) refl)
              (λ c.
                if_intro P (is_blocked s.blocklist r.host) _ _
                  (λ h. blocks (plain a b c) h refl refl)
                  (λ h. forwards (plain a b c) h refl refl))))
  where
    P : Served × List LogRecord → Type 0
    P o = Routed p r s o

    plain :
        text_eq r.method (codes "CONNECT") ≡ false
        → text_eq r.url_host magic_host ≡ false
        → text_eq r.url_host [] ≡ false
        → IsPlain r
    plain a b c = record {
      no_connect = differs _ _ a;
      no_magic = differs _ _ b;
      other_host = differs _ _ c;
    }
