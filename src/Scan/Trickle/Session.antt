-- ===== src/Scan/Trickle/Session.antt =====
-- Several calls of Read, one after the other, and what the caller has after them.
use mathlib.Core.Bool.{false≢true}
use i_filter_imitation.Common.{
  ℕ, zero, suc, ◌<◌, ◌⊎◌, inl, inr, Bool-cases, take_all, take-append-drop, ◌≤◌, if◌then◌else◌,
  if_intro, length-append, List, [], ◌∷◌, ◌++◌, append_assoc, append-nil, length, drop, take, Bool,
  true, false, Option, none, some, Text, ◌≡◌, refl, sym, ap, ◌∙◌, arith, All,
}
use i_filter_imitation.Scan.Status.{ScanResult}
use i_filter_imitation.Scan.Job.{Job}
use i_filter_imitation.Scan.Trickle.{
  tail_bytes, ReadOutcome, TrickleBody, Call, read, new_trickle_body,
}
use i_filter_imitation.Scan.Trickle.Laws.{
  bytes_of, is_end, whole, passed, IsCall, IsReading, Advances, Goes, read-Goes,
}

-- What the calls gave together, and whether io.EOF was the end of it.
pub record Session : Type 0 where
  pub received : Text
  pub ended : Bool
  pub body : TrickleBody

-- A caller of Read until io.EOF, at most as often as there are calls. A call that still waits
-- is its last one.
unfoldable pub session : ScanResult → Job → List Call → TrickleBody → Session
session result job [] b = record { received = []; ended = false; body = b }
session result job (call ∷ calls) b = elim (read result job call b) [
  | none ↦ record { received = []; ended = false; body = b }
  | some (outcome, b') ↦
      let rest = session result job calls b' in
      if is_end outcome
      then record { received = bytes_of outcome; ended = true; body = b' }
      else record {
        received = bytes_of outcome ++ rest.received;
        ended = rest.ended;
        body = rest.body;
      }
]

Nat-cases : (n : ℕ) → (n ≡ 0) ⊎ (0 < n)
Nat-cases zero = inl refl
Nat-cases (suc n) = inr (omega arith)

module _ (result : ScanResult) (job : Job) where
  record Runs (n : ℕ) (b : TrickleBody) (s : Session) : Type 0 where
    reading : IsReading result job s.body
    moved : passed job s.body ≡ passed job b ++ s.received
    full : s.ended ≡ true → passed job s.body ≡ whole job
    verdict : s.ended ≡ true → result.clean ≡ true
    slow : result.clean ≡ false → length s.received ≤ n

  waits :
      (n : ℕ) (b : TrickleBody)
      → IsReading result job b
      → Runs n b (record { received = []; ended = false; body = b })
  waits n b w = record {
    reading = w;
    moved = sym (append-nil (passed job b));
    full = λ h. absurd (false≢true h);
    verdict = λ h. absurd (false≢true h);
    slow = λ _. omega arith;
  }

  session-Runs :
      (calls : List Call) (b : TrickleBody)
      → All (IsCall job) calls
      → IsReading result job b
      → Runs (length calls) b (session result job calls b)
  unfolding session
  session-Runs [] b _ w = waits 0 b w
  session-Runs (call ∷ calls) b (c, cs) w =
      after (read result job call b) (read-Goes result job call b c w)
        (λ b' v. session-Runs calls b' cs v)
    where
      stops :
          (outcome : ReadOutcome) (b' : TrickleBody)
          → Advances result job b (outcome, b')
          → is_end outcome ≡ true
          → Runs
              (suc (length calls))
              b
              (record { received = bytes_of outcome; ended = true; body = b' })
      stops outcome b' a e = record {
        reading = a.reading;
        moved = a.next;
        full = λ _. a.end_whole e;
        verdict = λ _. a.end_clean e;
        slow = λ h. omega (arith, a.drips h);
      }

      goes_on :
          (outcome : ReadOutcome) (b' : TrickleBody) (rest : Session)
          → Advances result job b (outcome, b')
          → Runs (length calls) b' rest
          → Runs (suc (length calls)) b (record {
            received = bytes_of outcome ++ rest.received;
            ended = rest.ended;
            body = rest.body;
          })
      goes_on outcome b' rest a r = record {
        reading = r.reading;
        moved =
            r.moved
            ∙ ap (λ t. t ++ rest.received) a.next
            ∙ append_assoc (passed job b) (bytes_of outcome) rest.received;
        full = r.full;
        verdict = r.verdict;
        slow =
            λ h. omega (arith, a.drips h, r.slow h, length-append (bytes_of outcome) rest.received);
      }

      after :
          (o : Option (ReadOutcome × TrickleBody))
          → Goes result job b o
          → ((b' : TrickleBody)
              → IsReading result job b'
              → Runs (length calls) b' (session result job calls b'))
          → Runs (suc (length calls)) b (elim o [
            | none ↦ record { received = []; ended = false; body = b }
            | some (outcome, b') ↦
                let rest = session result job calls b' in
                if is_end outcome
                then record { received = bytes_of outcome; ended = true; body = b' }
                else record {
                  received = bytes_of outcome ++ rest.received;
                  ended = rest.ended;
                  body = rest.body;
                }
          ])
      after none g _ = waits _ b w
      after (some (outcome, b')) g again =
          if_intro (Runs (suc (length calls)) b) (is_end outcome) _ _ (stops outcome b' g)
            (λ _. goes_on outcome b' _ g (again b' g.reading))

  new-IsReading : IsReading result job new_trickle_body
  unfolding new_trickle_body
  new-IsReading = record {
    within = omega arith;
    file_first = λ h. absurd (omega arith);
    flushes_clean = λ h. absurd (false≢true h);
    no_fallback = refl;
  }

  started :
      (calls : List Call)
      → All (IsCall job) calls
      → Runs (length calls) new_trickle_body (session result job calls new_trickle_body)
  started calls cs = session-Runs calls new_trickle_body cs new-IsReading

  received-passed :
      (calls : List Call)
      → All (IsCall job) calls
      → let s = session result job calls new_trickle_body in s.received ≡ passed job s.body
  unfolding new_trickle_body
  received-passed calls cs = sym (started calls cs).moved

  -- What a body has been read for is the first part of everything.
  passed-whole :
      (b : TrickleBody)
      → IsReading result job b
      → (rest : Text) × (passed job b ++ rest ≡ whole job)
  passed-whole b w = elim (Nat-cases b.tail_pos) [
    | inl e ↦ (
      drop b.read_pos job.file ++ tail_bytes job.tail_body,
      rw (e, append-nil (take b.read_pos job.file))
          (sym (append_assoc (take b.read_pos job.file) (drop b.read_pos job.file) _)
            ∙ ap (λ s. s ++ tail_bytes job.tail_body) (take-append-drop b.read_pos job.file)),
    )
    | inr e ↦ (
      drop b.tail_pos (tail_bytes job.tail_body),
      rw (take_all b.read_pos job.file (omega (arith, w.file_first e))) (
          append_assoc job.file (take b.tail_pos (tail_bytes job.tail_body)) _
          ∙ ap (λ s. job.file ++ s) (take-append-drop b.tail_pos (tail_bytes job.tail_body))),
    )
  ]

  -- Whatever the calls are and however far the scan is at each of them, the client has received the
  -- first bytes of the temp file followed by the tail.
  pub session_prefix :
      (calls : List Call)
      → All (IsCall job) calls
      → (rest : Text) × ((session result job calls new_trickle_body).received ++ rest ≡ whole job)
  session_prefix calls cs =
      let (rest, e) = passed-whole _ (started calls cs).reading in
      (rest, ap (λ s. s ++ rest) (received-passed calls cs) ∙ e)

  -- A client that sees the end of the body has received the whole file and tail, and the verdict was
  -- clean.
  pub session_end :
      (calls : List Call)
      → All (IsCall job) calls
      → (session result job calls new_trickle_body).ended ≡ true
      → ((session result job calls new_trickle_body).received ≡ whole job) × (result.clean ≡ true)
  session_end calls cs h =
      (received-passed calls cs ∙ (started calls cs).full h, (started calls cs).verdict h)

  -- Where the verdict is not clean, the caller never sees the end of the body, and receives at most
  -- one byte for each call.
  pub session-infected :
      (calls : List Call)
      → All (IsCall job) calls
      → result.clean ≡ false
      → let s = session result job calls new_trickle_body in
        (s.ended ≡ false) × (length s.received ≤ length calls)
  session-infected calls cs dirty = (
    never (session result job calls new_trickle_body) (started calls cs) dirty,
    (started calls cs).slow dirty,
  )
    where
      never :
          (s : Session)
          → Runs (length calls) new_trickle_body s
          → result.clean ≡ false
          → s.ended ≡ false
      never s r dirty = elim (Bool-cases s.ended) [
        | inl h ↦ absurd (false≢true (sym dirty ∙ r.verdict h))
        | inr h ↦ h
      ]
