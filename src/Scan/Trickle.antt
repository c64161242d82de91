-- ===== src/Scan/Trickle.antt =====
-- internal/scan/trickle.go: the response body that the proxy reads for a command-line client while
-- the scan runs.
-- The job is the one `runScan` leaves; how much of it is there already at a look is an input, as the
-- scan goes on beside the reader.
pub mod Laws
pub mod Session
pub mod Client
mod Tests
use i_filter_imitation.Common.{
  ℕ, ◌+◌, ◌-◌, List, [], ◌∷◌, Bool, true, false, ◌&&◌, Option, none, some, ltb, leb, ◌==◌,
  if◌then◌else◌, Text, length, take, drop, min,
}
use i_filter_imitation.Scan.Status.{ScanResult}
use i_filter_imitation.Scan.Job.{Job}

pub data TrickleMode : Type 0 where
  trickling flushing aborted : TrickleMode

-- What Read returns: bytes, io.EOF, errVirusDetected, or another error.
pub data ReadOutcome : Type 0 where
  got : Text → ReadOutcome
  end_of_file virus_detected read_failed : ReadOutcome

-- The fields of the struct, and how much of the tail has been read.
pub record TrickleBody : Type 0 where
  pub read_pos : ℕ
  pub tail_pos : ℕ
  pub mode : TrickleMode
  pub fallback : Option Text

-- One round of a waiting loop: `written` when it is loaded first and when it is loaded again, whether
-- the select took uploadDone, and what the read of the file or stream gives that the round comes to.
pub record Look : Type 0 where
  pub before : ℕ
  pub after : ℕ
  pub by_done : Bool
  pub fails : Bool
  pub gives : ℕ

-- A read of an upstream body with the bytes `s` left: the outcome and the number of bytes.
unfoldable pub read_stream : ℕ → Look → Text → ReadOutcome × ℕ
read_stream p look s =
    let chunk = take (min look.gives p) s in
    if look.fails
    then (read_failed, 0)
    else elim s [ [] ↦ (end_of_file, 0) | _ ∷ _ ↦ (got chunk, length chunk) ]

abbrev pub tail_bytes : Option Text → Text
tail_bytes none = []
tail_bytes (some t) = t

-- The file is used up: the tail, if there is one, or the end.
pub read_tail : ℕ → Look → Job → TrickleBody → ReadOutcome × TrickleBody
unfolding read_stream
read_tail p look job b = elim job.tail_body [
  | none ↦ (end_of_file, b)
  | some t ↦
      let (outcome, n) = read_stream p look (drop b.tail_pos t) in
      (outcome, record b { tail_pos = b.tail_pos + n })
]

-- ReadAt at the reading position, for `n` bytes that are there
pub read_file : ℕ → Look → Job → TrickleBody → ReadOutcome × TrickleBody
read_file n look job b =
    if look.fails
    then (read_failed, b)
    else (got (take n (drop b.read_pos job.file)), record b { read_pos = b.read_pos + n })

-- `flushRead` on a buffer of `p` bytes; none while it waits.
pub flush_read : ℕ → List Look → Job → TrickleBody → Option (ReadOutcome × TrickleBody)
unfolding read_file read_tail
flush_read p [] job b = none
flush_read p (look ∷ looks) job b =
    let again = flush_read p looks job b in
    if ltb 0 (min p (look.before - b.read_pos))
    then some (read_file (min p (look.before - b.read_pos)) look job b)
    else if look.by_done && leb look.after b.read_pos
    then some (read_tail p look job b)
    else again

-- what both modes do with the result of the scan
pub on_result : ScanResult → ℕ → List Look → Job → TrickleBody → Option (ReadOutcome × TrickleBody)
unfolding flush_read
on_result result p looks job b =
    if result.clean
    then flush_read p looks job (record b { mode = flushing })
    else some (virus_detected, record b { mode = aborted })

-- the loop of `readOne`
pub read_one : ScanResult → ℕ → List Look → Job → TrickleBody → Option (ReadOutcome × TrickleBody)
unfolding read_file on_result
read_one result p [] job b = none
read_one result p (look ∷ looks) job b =
    let again = read_one result p looks job b in
    if ltb b.read_pos look.before
    then some (read_file 1 look job b)
    else if look.by_done && leb look.after b.read_pos
    then on_result result p looks job b
    else again

-- the default branch of `Read`: the result arrives before the timer fires, or not
pub trickle :
    Bool → ScanResult → ℕ → List Look → Job → TrickleBody → Option (ReadOutcome × TrickleBody)
unfolding on_result read_one
trickle in_time result p looks job b =
    if in_time
    then on_result result p looks job b
    else if p == 0
    then some (got [], b)
    else read_one result p looks job b

-- One call of Read: the size of the buffer, whether the result arrives in time, the rounds.
pub record Call : Type 0 where
  pub size : ℕ
  pub in_time : Bool
  pub looks : List Look

pub read_fallback : ℕ → List Look → Text → TrickleBody → Option (ReadOutcome × TrickleBody)
unfolding read_stream
read_fallback p [] s b = none
read_fallback p (look ∷ _) s b =
    let (outcome, n) = read_stream p look s in
    some (outcome, record b { fallback = some (drop n s) })

pub read : ScanResult → Job → Call → TrickleBody → Option (ReadOutcome × TrickleBody)
unfolding trickle flush_read read_fallback
read result job call b = elim b.fallback [
  | some s ↦ read_fallback call.size call.looks s b
  | none ↦ elim b.mode [
    | aborted ↦ some (virus_detected, b)
    | flushing ↦ flush_read call.size call.looks job b
    | trickling ↦ trickle call.in_time result call.size call.looks job b
  ]
]

-- The body that StartCLIJob returns when the temp file opens.
unfoldable pub new_trickle_body : TrickleBody
new_trickle_body = record { read_pos = 0; tail_pos = 0; mode = trickling; fallback = none }
