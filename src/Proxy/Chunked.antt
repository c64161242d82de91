-- ===== src/Proxy/Chunked.antt =====
-- internal/proxy/tunnel.go: loopChunkedWriter. A write to the connection succeeds; what is written is
-- the text.
pub mod Laws
mod Tests
use i_filter_imitation.Common.{ℕ, ◌+◌, List, [], ◌∷◌, ◌++◌, Text, codes, length, print_number}

-- io.CopyBuffer: the reads of a body in order
abbrev pub flatten : List Text → Text
flatten [] = []
flatten (p ∷ ps) = p ++ flatten ps

abbrev pub crlf : Text
crlf = b'\r' ∷ b'\n' ∷ []

-- `Write` of the bytes of one buffer
unfoldable pub write_chunk : Text → Text
unfolding print_number
write_chunk [] = []
write_chunk (c ∷ p) = print_number 16 (length (c ∷ p)) ++ crlf ++ (c ∷ p) ++ crlf

unfoldable pub close_chunks : Text
close_chunks = codes "0\r\n\r\n"

-- io.CopyBuffer into the writer, one write for each read
unfoldable pub write_each : List Text → Text
unfolding write_chunk
write_each [] = []
write_each (p ∷ ps) = write_chunk p ++ write_each ps

-- the writes and the close
unfoldable pub write_chunks : List Text → Text
unfolding write_each close_chunks
write_chunks ps = write_each ps ++ close_chunks
