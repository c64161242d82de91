-- ===== src/Scan/Clamd.antt =====
-- internal/scan/clamd.go: the INSTREAM dialogue with clamd. A connection is what the peer lets
-- happen: whether it accepts, how many writes succeed and which line it answers. The reader is the
-- list of the chunks that its Read calls give, and whether it then fails or ends.
pub mod Laws
pub mod Wire
mod Tests
use i_filter_imitation.Common.{
  ℕ, zero, suc, ◌+◌, ◌/◌, ◌%◌, ◌^◌, List, [], ◌∷◌, ◌++◌, length, Bool, true, false, Option, none,
  some, if◌then◌else◌, Text, codes, text_eq, has_suffix, trim_suffix, trim_prefix,
}
use i_filter_imitation.Scan.Status.{ScanResult}

pub record Peer : Type 0 where
  pub accepts : Bool
  pub takes_command : Bool
  pub writes : ℕ
  pub answer : Option Text

-- What ScanReader does to its reader and returns: the bytes it read, and the result or an error.
pub record Reading : Type 0 where
  pub consumed : ℕ
  pub outcome : Option ScanResult

-- binary.BigEndian.PutUint32 of uint32(n)
unfoldable pub big_endian : ℕ → Text
big_endian n = n / 2 ^ 24 % 256 ∷ n / 2 ^ 16 % 256 ∷ n / 2 ^ 8 % 256 ∷ n % 256 ∷ []

pub record Sent : Type 0 where
  pub wire : Text
  pub consumed : ℕ
  pub ok : Bool

abbrev command : Text
command = codes "nINSTREAM\n"

-- The last argument is the number of writes that still succeed.
unfoldable pub stream_to_clamd : List Text → Bool → ℕ → Sent
unfolding big_endian
stream_to_clamd [] true w = record { wire = []; consumed = 0; ok = false }
stream_to_clamd [] false zero = record { wire = []; consumed = 0; ok = false }
stream_to_clamd [] false (suc w) = record { wire = big_endian 0; consumed = 0; ok = true }
stream_to_clamd (c ∷ cs) broken zero = record { wire = []; consumed = length c; ok = false }
stream_to_clamd (c ∷ cs) broken (suc zero) = record {
  wire = big_endian (length c);
  consumed = length c;
  ok = false;
}
stream_to_clamd (c ∷ cs) broken (suc (suc w)) =
    let rest = stream_to_clamd cs broken w in
    record {
      wire = big_endian (length c) ++ c ++ rest.wire;
      consumed = length c + rest.consumed;
      ok = rest.ok;
    }

abbrev pub stream_ok : Text
stream_ok = codes "stream: OK"

abbrev pub stream_prefix : Text
stream_prefix = codes "stream: "

abbrev pub found_suffix : Text
found_suffix = codes " FOUND"

-- `readClamdResult`: the answer is the first line, or none where nothing could be read.
unfoldable pub read_clamd_result : Option Text → Option ScanResult
unfolding text_eq has_suffix trim_suffix trim_prefix
read_clamd_result none = none
read_clamd_result (some line) =
    if text_eq line stream_ok
    then some (record { clean = true; threat_name = [] })
    else if has_suffix line found_suffix
    then some (record {
      clean = false;
      threat_name = trim_suffix (trim_prefix line stream_prefix) found_suffix;
    })
    else none

-- `cut` gives the chunks in which the reader's bytes arrive, `broken` says that it fails at its end.
unfoldable pub scan_reader : Peer → (Text → List Text) → Text → Bool → Reading
unfolding stream_to_clamd read_clamd_result
scan_reader peer cut stream broken =
    let unread : Reading = record { consumed = 0; outcome = none } in
    let sent = stream_to_clamd (cut stream) broken peer.writes in
    let read : Reading = record {
      consumed = sent.consumed;
      outcome = if sent.ok then read_clamd_result peer.answer else none;
    } in
    if peer.accepts then if peer.takes_command then read else unread else unread
