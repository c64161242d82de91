-- ===== src/Scan/Clamd/Laws.antt =====
-- What the dialogue with clamd gives: the bytes on the wire, the reading of the answer, and how
-- much of the stream is read.
use mathlib.Core.List.{flatten}
use i_filter_imitation.Common.{
  ℕ, zero, suc, ◌+◌, ◌≤◌, ◌<◌, List, [], ◌∷◌, ◌++◌, length, length-append, Bool, true, false,
  Option, none, some, Text, text_eq, text_eq_iff, has_suffix, trim_suffix, trim_prefix, All, ◌≡◌,
  refl, ap, ◌∙◌, arith, has_suffix_of_append, trim_suffix_of_append, trim_prefix_of_append,
  Bool-cases, inl, inr,
}
use i_filter_imitation.Scan.Status.{ScanResult}
use i_filter_imitation.Scan.Clamd.{
  Peer, Reading, stream_to_clamd, read_clamd_result, scan_reader, stream_ok, stream_prefix,
  found_suffix,
}

-- How the reader's bytes may arrive: all of them, in chunks that are not empty and fit the buffer.
pub record IsCut (cut : Text → List Text) : Type 0 where
  pub joined : (s : Text) → flatten (cut s) ≡ s
  pub sized : (s : Text) → All (λ c. (0 < length c) × (length c ≤ 4096)) (cut s)

-- What `runScan` relies on of a scanner: it reads no more than there is, and where it returns a
-- result it has read all of a stream that did not fail.
pub record IsScanner (scan : Text → Bool → Reading) : Type 0 where
  pub within : (s : Text) (broken : Bool) → (scan s broken).consumed ≤ length s
  pub whole :
      (s : Text) (broken : Bool) (r : ScanResult)
      → (scan s broken).outcome ≡ some r
      → ((scan s broken).consumed ≡ length s) × (broken ≡ false)

length-flatten_cons :
    (c : Text) (cs : List Text) → length (flatten (c ∷ cs)) ≡ length c + length (flatten cs)
unfolding flatten
length-flatten_cons c cs = length-append c (flatten cs)

stream_to_clamd-within :
    (cs : List Text) (broken : Bool) (w : ℕ)
    → (stream_to_clamd cs broken w).consumed ≤ length (flatten cs)
unfolding stream_to_clamd flatten
stream_to_clamd-within [] true w = omega arith
stream_to_clamd-within [] false zero = omega arith
stream_to_clamd-within [] false (suc w) = omega arith
stream_to_clamd-within (c ∷ cs) broken zero = omega (arith, length-flatten_cons c cs)
stream_to_clamd-within (c ∷ cs) broken (suc zero) = omega (arith, length-flatten_cons c cs)
stream_to_clamd-within (c ∷ cs) broken (suc (suc w)) =
    omega (arith, length-flatten_cons c cs, stream_to_clamd-within cs broken w)

stream_to_clamd-whole :
    (cs : List Text) (broken : Bool) (w : ℕ)
    → (stream_to_clamd cs broken w).ok ≡ true
    → ((stream_to_clamd cs broken w).consumed ≡ length (flatten cs)) × (broken ≡ false)
unfolding stream_to_clamd flatten
stream_to_clamd-whole [] true w h = cc
stream_to_clamd-whole [] false zero h = cc
stream_to_clamd-whole [] false (suc w) h = (refl, refl)
stream_to_clamd-whole (c ∷ cs) broken zero h = cc
stream_to_clamd-whole (c ∷ cs) broken (suc zero) h = cc
stream_to_clamd-whole (c ∷ cs) broken (suc (suc w)) h =
    let (all_read, sound) = stream_to_clamd-whole cs broken w h in
    (omega (arith, length-flatten_cons c cs), sound)

module _ (peer : Peer) (cut : Text → List Text) (v : IsCut cut) where
  scan_reader-within :
      (s : Text) (broken : Bool) → (scan_reader peer cut s broken).consumed ≤ length s
  unfolding scan_reader
  scan_reader-within s broken =
      ground (arith, stream_to_clamd-within (cut s) broken peer.writes, v.joined s)

  scan_reader-whole :
      (s : Text) (broken : Bool) (r : ScanResult)
      → (scan_reader peer cut s broken).outcome ≡ some r
      → ((scan_reader peer cut s broken).consumed ≡ length s) × (broken ≡ false)
  unfolding scan_reader
  scan_reader-whole s broken r h =
      ground (arith, stream_to_clamd-whole (cut s) broken peer.writes, v.joined s)

  -- The clamd client is such a scanner, however the connection fails and the stream arrives.
  pub scan_reader-IsScanner : IsScanner (scan_reader peer cut)
  scan_reader-IsScanner = record { within = scan_reader-within; whole = scan_reader-whole }

-- The answer is read as clean for the line `stream: OK` alone.
pub read_clamd_result-clean :
    (answer : Option Text) (r : ScanResult)
    → read_clamd_result answer ≡ some r
    → r.clean ≡ true
    → answer ≡ some stream_ok
unfolding read_clamd_result
read_clamd_result-clean none r h k = cc
read_clamd_result-clean (some line) r h k = ground (arith, text_eq_iff line stream_ok)

found_line : Text → Text
found_line threat = stream_prefix ++ threat ++ found_suffix

length-found_line : (threat : Text) → 10 < length (found_line threat)
unfolding found_line
length-found_line threat =
    omega (
      arith,
      length-append stream_prefix (threat ++ found_suffix),
      length-append threat found_suffix,
    )

found_line-ne-stream_ok : (threat : Text) → text_eq (found_line threat) stream_ok ≡ false
found_line-ne-stream_ok threat = elim (Bool-cases (text_eq (found_line threat) stream_ok)) [
  | inl same ↦
      absurd (omega (arith, length-found_line threat, ap length ((text_eq_iff _ stream_ok).0 same)))
  | inr other ↦ other
]

read_clamd_result-some :
    (line : Text)
    → text_eq line stream_ok ≡ false
    → has_suffix line found_suffix ≡ true
    → read_clamd_result (some line)
      ≡ some (record {
        clean = false;
        threat_name = trim_suffix (trim_prefix line stream_prefix) found_suffix;
      })
unfolding read_clamd_result
read_clamd_result-some line h k = rw (h, k)

-- A line that reports a threat is read as that threat, whatever its name.
pub read_clamd_result-found :
    (threat : Text)
    → read_clamd_result (some (stream_prefix ++ threat ++ found_suffix))
      ≡ some (record { clean = false; threat_name = threat })
unfolding found_line
read_clamd_result-found threat =
    read_clamd_result-some (found_line threat) (found_line-ne-stream_ok threat)
      (has_suffix_of_append (stream_prefix ++ threat) found_suffix)
    ∙ ap (λ t. some (record { clean = false; threat_name = trim_suffix t found_suffix }))
        (trim_prefix_of_append stream_prefix (threat ++ found_suffix))
    ∙ ap (λ t. some (record { clean = false; threat_name = t }))
        (trim_suffix_of_append threat found_suffix)

-- A reader that gives one byte at a time.
unfoldable pub bytewise : Text → List Text
bytewise [] = []
bytewise (b ∷ s) = (b ∷ []) ∷ bytewise s

flatten-bytewise : (s : Text) → flatten (bytewise s) ≡ s
unfolding flatten bytewise
flatten-bytewise [] = refl
flatten-bytewise (b ∷ s) = ap (◌∷◌ b) (flatten-bytewise s)

sized-bytewise : (s : Text) → All (λ c. (0 < length c) × (length c ≤ 4096)) (bytewise s)
unfolding bytewise
sized-bytewise [] = tt
sized-bytewise (b ∷ s) = ((omega arith, omega arith), sized-bytewise s)

pub bytewise-IsCut : IsCut bytewise
bytewise-IsCut = record { joined = flatten-bytewise; sized = sized-bytewise }
