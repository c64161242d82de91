-- ===== src/Scan/Clamd/Tests.antt =====
-- A reader that gives one byte at a time, and the theorems on the client at a short stream.
use mathlib.Core.List.{flatten}
use i_filter_imitation.Common.{
  suc, List, [], ◌∷◌, length, true, false, some, Text, codes, ◌≡◌, refl, arith,
}
use i_filter_imitation.Scan.Clamd.{Peer, stream_to_clamd, scan_reader, stream_ok}
use i_filter_imitation.Scan.Clamd.Laws.{bytewise, bytewise-IsCut, IsScanner, scan_reader-IsScanner}
use i_filter_imitation.Scan.Clamd.Wire.{decode, decode-stream_to_clamd}

abbrev up : Peer
up = record { accepts = true; takes_command = true; writes = 100; answer = some stream_ok }

abbrev chunks : List Text
chunks = codes "ab" ∷ codes "c" ∷ []

scan_reader-IsScanner_example : IsScanner (scan_reader up bytewise)
scan_reader-IsScanner_example = scan_reader-IsScanner up bytewise bytewise-IsCut

decode-stream_to_clamd_example :
    decode (suc (length chunks)) (stream_to_clamd chunks false 9).wire ≡ some (flatten chunks)
unfolding stream_to_clamd
decode-stream_to_clamd_example = decode-stream_to_clamd chunks false 9 (omega arith) refl
