-- ===== src/Proxy/Framing.antt =====
-- internal/proxy/tunnel.go: loopWriteHead and loopWriteBody, which write a response to the client. A
-- write succeeds. The order in which the header map is walked is that of the list. http.StatusText is
-- a parameter.
pub mod Laws
pub mod Message
pub mod Head
pub mod StatusLine
pub mod RoundTrip
pub mod Infected
mod Tests
use i_filter_imitation.Common.{
  ℕ, List, [], ◌∷◌, ◌++◌, Bool, true, false, ◌||◌, Option, none, some, ◌==◌, if◌then◌else◌, Text,
  codes, text_eq, to_lower, print_number,
}
use i_filter_imitation.Proxy.Chunked.{flatten, crlf, write_each, close_chunks}

abbrev pub hop_headers : List Text
hop_headers =
    codes "Connection"
    ∷ codes "Keep-Alive"
    ∷ codes "Proxy-Authenticate"
    ∷ codes "Proxy-Authorization"
    ∷ codes "Proxy-Connection"
    ∷ codes "Te"
    ∷ codes "Trailers"
    ∷ codes "Transfer-Encoding"
    ∷ codes "Upgrade"
    ∷ []

-- The fields that are used; `reads` is what the reads of the body give, up to its end or, if it `fails`,
-- up to a read that returns an error. A length of none stands for -1.
pub record UpResponse : Type 0 where
  pub status_code : ℕ
  pub status : Text
  pub header : List (Text × List Text)
  pub content_length : Option ℕ
  pub close : Bool
  pub reads : List Text
  pub fails : Bool

unfoldable pub is_member : Text → List Text → Bool
unfolding text_eq
is_member k [] = false
is_member k (h ∷ hs) = text_eq k h || is_member k hs

-- strings.EqualFold on ASCII text
unfoldable pub equal_fold : Text → Text → Bool
unfolding text_eq to_lower
equal_fold s t = text_eq (to_lower s) (to_lower t)

unfoldable pub is_dropped : Text → Bool
unfolding is_member equal_fold
is_dropped k = is_member k hop_headers || equal_fold k (codes "Content-Length")

abbrev pub values : Text → List Text → List (Text × Text) → List (Text × Text)
values k [] rest = rest
values k (v ∷ vs) rest = (k, v) ∷ values k vs rest

-- the lines of the header that are written
unfoldable pub header_lines : List (Text × List Text) → List (Text × Text)
header_lines [] = []
header_lines ((k, vs) ∷ header) =
    let rest = header_lines header in if is_dropped k then rest else values k vs rest

unfoldable pub write_lines : List (Text × Text) → Text
write_lines [] = []
write_lines ((k, v) ∷ lines) = k ++ codes ": " ++ v ++ crlf ++ write_lines lines

-- How the end of the body is told.
pub data BodyFraming : Type 0 where
  switching until_close by_chunks : BodyFraming
  by_length : ℕ → BodyFraming

unfoldable pub framing : UpResponse → BodyFraming
framing resp = if resp.status_code == 101 then switching else elim resp.content_length [
  | some n ↦ by_length n
  | none ↦ if resp.close then until_close else by_chunks
]

unfoldable pub framing_line : BodyFraming → Text
unfolding print_number
framing_line switching = []
framing_line until_close = codes "Connection: close\r\n"
framing_line by_chunks = codes "Transfer-Encoding: chunked\r\n"
framing_line (by_length n) = codes "Content-Length: " ++ print_number 10 n ++ crlf

-- the text of the status line
unfoldable pub reason : (ℕ → Text) → UpResponse → Text
reason status_text resp = elim resp.status [ [] ↦ status_text resp.status_code | c ∷ s ↦ c ∷ s ]

-- the lines of the head before the one that tells how the body ends
unfoldable pub write_fields : (ℕ → Text) → UpResponse → Text
unfolding reason header_lines write_lines print_number
write_fields status_text resp =
    codes "HTTP/1.1 "
    ++ print_number 10 resp.status_code
    ++ codes " "
    ++ reason status_text resp
    ++ crlf
    ++ write_lines (header_lines resp.header)

unfoldable pub loop_write_head : (ℕ → Text) → UpResponse → Text
unfolding write_fields framing framing_line
loop_write_head status_text resp =
    write_fields status_text resp ++ framing_line (framing resp) ++ crlf

-- io.CopyBuffer of a body: what is written, and whether it ends with an error.
abbrev pub copy_buffer : UpResponse → Text × Bool
copy_buffer resp = (flatten resp.reads, resp.fails)

-- the same into a loopChunkedWriter
abbrev pub copy_chunks : UpResponse → Text × Bool
copy_chunks resp = (write_each resp.reads, resp.fails)

-- The error of the copy is ignored: the last chunk is written behind a body that failed, too.
unfoldable pub loop_write_body : UpResponse → Text
unfolding close_chunks
loop_write_body resp = elim resp.content_length [
  | some n ↦ if n == 0 then [] else (copy_buffer resp).0
  | none ↦ (copy_chunks resp).0 ++ close_chunks
]
