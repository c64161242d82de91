-- ===== src/Proxy/Tunnel.antt =====
-- internal/proxy/tunnel.go: serveConnLoop, the requests of one decrypted CONNECT tunnel. What is read
-- from the client and what the upstream answers are inputs, one exchange after the other; where they
-- end, http.ReadRequest fails. Draining and closing the bodies is not modelled, nor are the fields of a
-- record that only describe the client.
pub mod Laws
pub mod Bypass
mod Tests
use i_filter_imitation.Common.{
  ℕ, ◌+◌, List, [], ◌∷◌, ◌++◌, Bool, true, false, ◌||◌, Option, none, some, ◌==◌, if◌then◌else◌,
  Text, codes, has_prefix, length, print_number,
}
use i_filter_imitation.Proxy.Blocklist.{Blocklist, is_blocked}
use i_filter_imitation.Proxy.Chunked.{crlf}
use i_filter_imitation.Proxy.Framing.{
  UpResponse, copy_buffer, loop_write_head, loop_write_body, write_lines, values,
}

-- A request, the answer of the transport to it (none for an error), the Content-Type of the answer, and
-- whether the body of an upgrade can be written.
pub record Exchange : Type 0 where
  pub host : Text
  pub close : Bool
  pub answer : Option UpResponse
  pub content_type : Text
  pub bridges : Bool

-- A log record: the host, the status and whether it is a block event.
pub record LogRecord : Type 0 where
  pub host : Text
  pub status_code : ℕ
  pub is_block : Bool

-- What the loop has done: the requests given to the transport (the host that is dialled and the Host
-- header), the bytes written to the client, the bridges made, and the log.
pub record Loop : Type 0 where
  pub forwarded : List (Text × Text)
  pub written : Text
  pub bridged : ℕ
  pub log : List LogRecord

-- one round of the loop, and whether another follows
abbrev pub Round : Type 0
Round = Loop × Bool

abbrev pub host_or : Text → Text → Text
host_or [] host = host
host_or (c ∷ s) host = c ∷ s

abbrev record_of : Text → ℕ → LogRecord
record_of host status = record { host = host; status_code = status; is_block = false }

-- `emitLog`: nothing is sent without a log server.
abbrev pub emit_log : Bool → LogRecord → List LogRecord
emit_log has_sender r = if has_sender then r ∷ [] else []

module _ (status_text : ℕ → Text) (blocked_page : Text → Text) (has_sender : Bool) where
  -- `blocked_page` is the constant page with the host put in.
  unfoldable pub loop_forbidden : Text → Text
  unfolding print_number
  loop_forbidden host =
      codes "HTTP/1.1 403 Forbidden\r\nContent-Type: text/html; charset=utf-8\r\nContent-Length: "
      ++ print_number 10 (length (blocked_page host))
      ++ codes "\r\nConnection: close\r\n\r\n"
      ++ blocked_page host

  unfoldable pub loop_plain_status : ℕ → Text
  unfolding print_number
  loop_plain_status code =
      codes "HTTP/1.1 "
      ++ print_number 10 code
      ++ codes " "
      ++ status_text code
      ++ codes "\r\nContent-Length: 0\r\nConnection: close\r\n\r\n"

  abbrev all_lines : List (Text × List Text) → List (Text × Text)
  all_lines [] = []
  all_lines ((k, vs) ∷ header) = values k vs (all_lines header)

  -- All headers of the response; the upstream spoke HTTP/1.1.
  unfoldable pub loop_write_upgrade_head : UpResponse → Text
  unfolding write_lines
  loop_write_upgrade_head resp =
      codes "HTTP/1.1 101 Switching Protocols\r\n" ++ write_lines (all_lines resp.header) ++ crlf

  abbrev wrote : Text → Loop → Loop
  wrote s l = record l { written = l.written ++ s }

  abbrev logged : LogRecord → Loop → Loop
  logged r l = record l { log = l.log ++ emit_log has_sender r }

  -- The branches behind a successful round trip, in their order. A body read that fails ends the copy,
  -- and its error is ignored: the loop goes on as after a whole body.
  unfoldable pub respond : Text → Exchange → UpResponse → Loop → Round
  unfolding loop_write_upgrade_head
  respond host x resp l =
      if resp.status_code == 101
      then if x.bridges
        then (
          logged (record_of host 101)
              (record (wrote (loop_write_upgrade_head resp) l) { bridged = l.bridged + 1 }),
          false,
        )
        else (wrote (loop_write_upgrade_head resp) l, false)
      else if has_prefix x.content_type (codes "text/event-stream")
      then (
        logged (record_of host resp.status_code) (
            wrote
              (loop_write_head status_text (record resp { close = true }) ++ (copy_buffer resp).0)
              l),
        false,
      )
      else (
        logged (record_of host resp.status_code)
            (wrote (loop_write_head status_text resp ++ loop_write_body resp) l),
        if resp.close || x.close then false else true,
      )

  unfoldable pub round : Option Blocklist → Text → Exchange → Loop → Round
  unfolding loop_forbidden loop_plain_status respond
  round blocklist host x l =
      let name = host_or x.host host in
      let sent = record l { forwarded = l.forwarded ++ (host, name) ∷ [] } in
      if is_blocked blocklist name
      then (
        logged (record { host = name; status_code = 403; is_block = true })
            (wrote (loop_forbidden name) l),
        false,
      )
      else elim x.answer [
        | none ↦ (logged (record_of host 502) (wrote (loop_plain_status 502) sent), false)
        | some resp ↦ respond host x resp sent
      ]

  -- the blocklist is loaded anew for each request
  unfoldable pub serve_conn_loop : Text → List (Option Blocklist × Exchange) → Loop → Loop
  unfolding round
  serve_conn_loop host [] l = l
  serve_conn_loop host ((blocklist, x) ∷ xs) l =
      let r = round blocklist host x l in
      let rest = serve_conn_loop host xs r.0 in if r.1 then rest else r.0

abbrev pub new_loop : Loop
new_loop = record { forwarded = []; written = []; bridged = 0; log = [] }
