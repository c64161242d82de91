-- ===== src/Scan/Clamd/Wire.antt =====
-- The INSTREAM framing, read back as the protocol says: chunks with a four-byte big-endian length,
-- up to a chunk of length 0.
use mathlib.Core.List.{flatten}
use mathlib.Core.Option
use i_filter_imitation.Common.{
  ◌/◌, ◌%◌, ℕ, zero, suc, ◌+◌, ◌*◌, ◌^◌, ◌≤◌, ◌<◌, List, [], ◌∷◌, ◌++◌, length, length-append, take,
  drop, take_of_append, drop_of_append, Bool, true, false, Option, none, some, if◌then◌else◌, Text,
  All, ◌≡◌, refl, ap, ◌∙◌, arith, leb, ◌==◌,
}
use i_filter_imitation.Scan.Clamd.{big_endian, stream_to_clamd}

value : ℕ → ℕ → ℕ → ℕ → ℕ
value a b c d = a * 2 ^ 24 + b * 2 ^ 16 + c * 2 ^ 8 + d

-- One round, behind a length.
round : (Text → Option Text) → ℕ → Text → Option Text
round next n rest =
    let more = next (drop n rest) in
    if n == 0
    then some []
    else if leb n (length rest)
    then Option.map (λ t. take n rest ++ t) more
    else none

-- The fuel bounds the number of chunks.
pub decode : ℕ → Text → Option Text
unfolding round value
decode zero wire = none
decode (suc f) (a ∷ b ∷ c ∷ d ∷ rest) = round (decode f) (value a b c d) rest
decode (suc f) _ = none

value_of_big_endian :
    (n : ℕ)
    → n < 2 ^ 32
    → value (n / 2 ^ 24 % 256) (n / 2 ^ 16 % 256) (n / 2 ^ 8 % 256) (n % 256) ≡ n
unfolding value
value_of_big_endian n h = omega arith

round_chunk :
    (next : Text → Option Text) (c wire t : Text)
    → 0 < length c
    → next wire ≡ some t
    → round next (length c) (c ++ wire) ≡ some (c ++ t)
unfolding round
round_chunk next c wire t pos e =
    ground (arith, take_of_append c wire, drop_of_append c wire, length-append c wire)

decode_end : (f : ℕ) → decode (suc f) (big_endian 0) ≡ some []
unfolding decode big_endian
decode_end f = refl

-- A frame is read back, and then the frames behind it.
decode_frame :
    (f : ℕ) (c wire t : Text)
    → 0 < length c
    → length c < 2 ^ 32
    → decode f wire ≡ some t
    → decode (suc f) (big_endian (length c) ++ c ++ wire) ≡ some (c ++ t)
unfolding decode big_endian
decode_frame f c wire t pos small e =
    ap (λ n. round (decode f) n (c ++ wire)) (value_of_big_endian (length c) small)
    ∙ round_chunk (decode f) c wire t pos e

-- If all writes succeed and the reader does not fail, the frames on the wire hold the reader's
-- bytes in order; one round of fuel for each chunk and one for the end are enough.
pub decode-stream_to_clamd :
    (cs : List Text) (broken : Bool) (w : ℕ)
    → All (λ c. (0 < length c) × (length c ≤ 4096)) cs
    → (stream_to_clamd cs broken w).ok ≡ true
    → decode (suc (length cs)) (stream_to_clamd cs broken w).wire ≡ some (flatten cs)
unfolding stream_to_clamd flatten
decode-stream_to_clamd [] true w v h = cc
decode-stream_to_clamd [] false zero v h = cc
decode-stream_to_clamd [] false (suc w) v h = decode_end 0
decode-stream_to_clamd (c ∷ cs) broken zero v h = cc
decode-stream_to_clamd (c ∷ cs) broken (suc zero) v h = cc
decode-stream_to_clamd (c ∷ cs) broken (suc (suc w)) v h =
    decode_frame (suc (length cs)) c _ (flatten cs) v.0.0 (omega (arith, v.0.1))
      (decode-stream_to_clamd cs broken w v.1 h)
