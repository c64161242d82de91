-- ===== src/Proxy/Tunnel/Tests.antt =====
-- Tunnels to `bad.com`, with `bad.com` in the blocklist.
use i_filter_imitation.Common.{
  ℕ, [], ◌∷◌, List, map, true, false, Option, some, Text, codes, ◌≡◌, ◌≢◌, refl, arith, has_prefix,
  cut_prefix,
}
use i_filter_imitation.Proxy.Blocklist.{Blocklist, new_blocklist, is_blocked}
use i_filter_imitation.Proxy.Tunnel.{Exchange, serve_conn_loop, new_loop}
use i_filter_imitation.Proxy.Tunnel.Laws.{LetThrough, serve_conn_loop-LetThrough}
use i_filter_imitation.Proxy.Tunnel.Bypass.{
  names, let_through, goes_on, stays_open, names-serve_conn_loop,
}

abbrev blocklist : Option Blocklist
blocklist = some (new_blocklist (codes "bad.com" ∷ []))

abbrev exchange : Text → Exchange
exchange name = record {
  host = name;
  close = false;
  answer = some (record {
    status_code = 200;
    status = codes "OK";
    header = [];
    content_length = some 1;
    close = false;
    reads = codes "a" ∷ [];
    fails = false;
  });
  content_type = codes "text/html";
  bridges = true;
}

abbrev exchanges : List Exchange
exchanges = exchange (codes "ok.com") ∷ exchange (codes "bad.com") ∷ exchange (codes "ok.com") ∷ []

abbrev no_text : ℕ → Text
no_text _ = []

abbrev blocked_page : Text → Text
blocked_page host = host

abbrev bad_com : Text
bad_com = codes "bad.com"

abbrev paired : List (Option Blocklist × Exchange)
paired = map (λ x. (blocklist, x)) exchanges

serve_conn_loop-LetThrough_example :
    LetThrough no_text blocked_page true bad_com blocklist
      (serve_conn_loop no_text blocked_page true bad_com paired new_loop)
serve_conn_loop-LetThrough_example =
    serve_conn_loop-LetThrough no_text blocked_page true bad_com blocklist exchanges

ok_ne_nil : codes "ok.com" ≢ []
ok_ne_nil h = ground (arith, h)

bad_ne_nil : bad_com ≢ []
bad_ne_nil h = ground (arith, h)

-- One request is let through, and it dials the blocked host.
names-serve_conn_loop_example :
    names (
      serve_conn_loop no_text blocked_page true bad_com
        ((blocklist, exchange (codes "ok.com")) ∷ [])
        new_loop)
    ≡ let_through ((blocklist, exchange (codes "ok.com")) ∷ [])
names-serve_conn_loop_example =
    names-serve_conn_loop no_text blocked_page true bad_com
      ((blocklist, exchange (codes "ok.com")) ∷ []) new_loop (ok_ne_nil, tt)

host_blocked : is_blocked blocklist bad_com ≡ true
unfolding is_blocked new_blocklist
host_blocked = refl

forwarded_anyway : let_through ((blocklist, exchange (codes "ok.com")) ∷ []) ≡ codes "ok.com" ∷ []
unfolding let_through goes_on stays_open is_blocked new_blocklist has_prefix cut_prefix
forwarded_anyway = refl
