-- ===== src/Proxy/Connect.antt =====
-- internal/proxy/connect.go and timed_transport.go: the tunnel of a CONNECT request up to its first
-- decrypted request, the connection whose first bytes were read already, and the count of the bytes of a
-- body. Hijacking, the TLS handshake and the network are inputs.
pub mod Bytes
mod Tests
use i_filter_imitation.Common.{
  ℕ, ◌+◌, List, [], ◌∷◌, ◌++◌, Bool, true, false, Option, none, some, ◌==◌, if◌then◌else◌, Text,
  codes, length, take, drop, min,
}

-- The bytes that the server had buffered, or none once they are used up, and the bytes that are still to
-- come from the network.
pub record Conn : Type 0 where
  pub br : Option Text
  pub network : Text

-- a read from the network of at most `size` bytes, of which `arrived` are there
abbrev pub read_network : ℕ → ℕ → Conn → Text × Conn
read_network size arrived c = (
  take (min size arrived) c.network,
  record c { br = none; network = drop (min size arrived) c.network },
)

-- A buffered reader that holds bytes gives of those alone.
unfoldable pub read : ℕ → ℕ → Conn → Text × Conn
read size arrived c = elim c.br [
  | none ↦ read_network size arrived c
  | some [] ↦ read_network size arrived c
  | some (b ∷ buffered) ↦
      (take size (b ∷ buffered), record c { br = some (drop size (b ∷ buffered)) })
]

-- Where a CONNECT request ends: an answer of 500, no tunnel, or the loop with the host and the connection.
pub data Tunnelled : Type 0 where
  hijack_failed : Tunnelled
  flush_failed : Tunnelled
  handshake_failed : Text → Tunnelled
  tunnelled : Text → Text → Conn → Tunnelled

-- the buffered bytes of a hijacked connection, or none
unfoldable pub handle_connect : Option Text → Bool → (Conn → Option Conn) → Text → Text → Tunnelled
handle_connect none flushes handshake host network = hijack_failed
handle_connect (some buffered) flushes handshake host network =
    let ack = codes "HTTP/1.1 200 Connection established\r\n\r\n" in
    if flushes
    then elim (handshake (record { br = some buffered; network = network })) [
      | none ↦ handshake_failed ack
      | some conn ↦ tunnelled host ack conn
    ]
    else flush_failed

-- What a round trip notes for the log, if the request carries a note.
pub record RequestMeta : Type 0 where
  pub status_code : ℕ
  pub bytes_sent : ℕ
  pub content_type : Text

-- The note, and whether the body is counted: not after a switch of protocols.
unfoldable pub timed_round_trip : Option (ℕ × Text) → Option RequestMeta → Option RequestMeta × Bool
timed_round_trip none meta = (meta, false)
timed_round_trip (some (status, content_type)) none = (none, false)
timed_round_trip (some (status, content_type)) (some meta) = (
  some (record meta { status_code = status; content_type = content_type }),
  if status == 101 then false else true,
)

-- `countingReadCloser.Read`, for one read that returned these bytes
unfoldable pub count_read : Text → RequestMeta → RequestMeta
count_read bytes meta = record meta { bytes_sent = meta.bytes_sent + length bytes }
