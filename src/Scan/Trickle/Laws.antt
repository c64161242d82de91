-- ===== src/Scan/Trickle/Laws.antt =====
-- One call of Read: what it returns is the next part of the file and the tail.
use mathlib.Core.Bool.{false≢true}
use i_filter_imitation.Common.{
  ℕ, ◌+◌, ◌-◌, ◌≤◌, ◌<◌, List, [], ◌∷◌, ◌++◌, append_assoc, append-nil, length, take, drop, Bool,
  true, false, ◌&&◌, Option, none, some, ltb, leb, ◌==◌, Text, ◌≡◌, refl, sym, ap, ◌∙◌, arith, All,
  take-add, take-length-take, take_all, if_intro, min, ltb→lt, length-take, option_intro,
  take_of_nil, take-append-drop, subst,
}
use i_filter_imitation.Scan.Status.{ScanResult}
use i_filter_imitation.Scan.Job.{Job}
use i_filter_imitation.Scan.Trickle.{
  TrickleMode, trickling, flushing, aborted, ReadOutcome, got, end_of_file, virus_detected,
  read_failed, TrickleBody, Look, read_stream, tail_bytes, read_tail, read_file, flush_read,
  on_result, read_one, trickle, Call, read,
}

abbrev pub bytes_of : ReadOutcome → Text
bytes_of (got s) = s
bytes_of _ = []

abbrev pub is_end : ReadOutcome → Bool
is_end end_of_file = true
is_end _ = false

abbrev pub is_flushing : TrickleMode → Bool
is_flushing flushing = true
is_flushing _ = false

-- Everything that the job has for the client, and what of it a body has been read for.
abbrev pub whole : Job → Text
whole job = job.file ++ tail_bytes job.tail_body

abbrev pub passed : Job → TrickleBody → Text
passed job b = take b.read_pos job.file ++ take b.tail_pos (tail_bytes job.tail_body)

-- `written` never passes the length of the file, and is that length once uploadDone is closed.
pub record IsLook (job : Job) (look : Look) : Type 0 where
  pub before_fits : look.before ≤ length job.file
  pub after_full : look.by_done ≡ true → look.after ≡ length job.file

abbrev pub IsCall : Job → Call → Type 0
IsCall job call = All (IsLook job) call.looks

read_stream_cases :
    (p : ℕ) (look : Look) (s : Text) (P : ReadOutcome × ℕ → Type 0)
    → P (read_failed, 0)
    → (s ≡ [] → P (end_of_file, 0))
    → ((chunk : Text) → chunk ≡ take (min look.gives p) s → P (got chunk, length chunk))
    → P (read_stream p look s)
unfolding read_stream
read_stream_cases p look [] P failed ended given =
    if_intro P look.fails _ _ (λ _. failed) (λ _. ended refl)
read_stream_cases p look (c ∷ s) P failed ended given =
    if_intro P look.fails _ _ (λ _. failed) (λ _. given _ refl)

module _ (result : ScanResult) (job : Job) where
  pub record IsReading (b : TrickleBody) : Type 0 where
    pub within : b.read_pos ≤ length job.file
    pub file_first : 0 < b.tail_pos → b.read_pos ≡ length job.file
    pub flushes_clean : is_flushing b.mode ≡ true → result.clean ≡ true
    pub no_fallback : b.fallback ≡ none

  -- What one call does.
  pub record Advances (b : TrickleBody) (r : ReadOutcome × TrickleBody) : Type 0 where
    pub reading : IsReading r.1
    pub next : passed job r.1 ≡ passed job b ++ bytes_of r.0
    pub end_whole : is_end r.0 ≡ true → passed job r.1 ≡ whole job
    pub end_clean : is_end r.0 ≡ true → result.clean ≡ true
    pub drips : result.clean ≡ false → length (bytes_of r.0) ≤ 1

  abbrev pub Goes : TrickleBody → Option (ReadOutcome × TrickleBody) → Type 0
  Goes b none = Unit
  Goes b (some r) = Advances b r

  -- A read that gives no bytes and changes nothing.
  stays :
      (r : ReadOutcome) (b : TrickleBody)
      → IsReading b
      → bytes_of r ≡ []
      → is_end r ≡ false
      → Advances b (r, b)
  stays r b w e f = record {
    reading = w;
    next = rw e (sym (append-nil (passed job b)));
    end_whole = λ h. absurd (false≢true (sym f ∙ h));
    end_clean = λ h. absurd (false≢true (sym f ∙ h));
    drips = λ _. rw e (omega arith);
  }

  passed-file :
      (b : TrickleBody) (n : ℕ)
      → b.tail_pos ≡ 0
      → passed job (record b { read_pos = b.read_pos + n })
        ≡ passed job b ++ take n (drop b.read_pos job.file)
  passed-file b n e =
      rw (e, take-add b.read_pos n job.file)
        (append-nil (take b.read_pos job.file ++ take n (drop b.read_pos job.file))
          ∙ sym (
              ap (λ s. s ++ take n (drop b.read_pos job.file))
                (append-nil (take b.read_pos job.file))))

  read_file-Advances :
      (n : ℕ) (look : Look) (b : TrickleBody)
      → IsReading b
      → b.read_pos + n ≤ length job.file
      → 0 < n
      → (result.clean ≡ false → n ≤ 1)
      → Advances b (read_file n look job b)
  unfolding read_file
  read_file-Advances n look b w room more drips =
      if_intro (Advances b) look.fails _ _ (λ _. stays read_failed b w refl refl)
        (λ _. record {
          reading = record {
            within = room;
            file_first = λ h. absurd (omega (arith, w.file_first h));
            flushes_clean = w.flushes_clean;
            no_fallback = w.no_fallback;
          };
          next = passed-file b n (unread b n w room more);
          end_whole = λ h. absurd (false≢true h);
          end_clean = λ h. absurd (false≢true h);
          drips = λ h. omega (arith, drips h, length-take n (drop b.read_pos job.file));
        })
    where
      unread :
          (b : TrickleBody) (n : ℕ)
          → IsReading b
          → b.read_pos + n ≤ length job.file
          → 0 < n
          → b.tail_pos ≡ 0
      unread b n w room more = ground (arith, w.file_first)

  passed-tail :
      (b : TrickleBody) (t chunk : Text) (n : ℕ)
      → job.tail_body ≡ some t
      → chunk ≡ take n (drop b.tail_pos t)
      → passed job (record b { tail_pos = b.tail_pos + length chunk }) ≡ passed job b ++ chunk
  passed-tail b t chunk n e f =
      rw (e, take-add b.tail_pos (length chunk) t, taken b t chunk n f)
        (sym (append_assoc (take b.read_pos job.file) (take b.tail_pos t) chunk))
    where
      taken :
          (b : TrickleBody) (t chunk : Text) (n : ℕ)
          → chunk ≡ take n (drop b.tail_pos t)
          → take (length chunk) (drop b.tail_pos t) ≡ chunk
      taken b t chunk n f = rw f (take-length-take n (drop b.tail_pos t))

  passed_all :
      (b : TrickleBody)
      → length job.file ≤ b.read_pos
      → take b.tail_pos (tail_bytes job.tail_body) ≡ tail_bytes job.tail_body
      → passed job b ≡ whole job
  passed_all b over e = rw (take_all b.read_pos job.file over, e) refl

  -- A stream that has ended or fails moves nothing.
  tail_stays :
      (r : ReadOutcome) (b : TrickleBody)
      → Advances b (r, b)
      → Advances b (r, record b { tail_pos = b.tail_pos + 0 })
  tail_stays r b a = subst (λ k. Advances b (r, record b { tail_pos = k })) (plus_zero b.tail_pos) a
    where
      plus_zero : (k : ℕ) → k ≡ k + 0
      plus_zero k = omega arith

  ends :
      (b : TrickleBody)
      → IsReading b
      → length job.file ≤ b.read_pos
      → result.clean ≡ true
      → take b.tail_pos (tail_bytes job.tail_body) ≡ tail_bytes job.tail_body
      → Advances b (end_of_file, b)
  ends b w over ok e = record {
    reading = w;
    next = sym (append-nil (passed job b));
    end_whole = λ _. passed_all b over e;
    end_clean = λ _. ok;
    drips = λ _. omega arith;
  }

  gives_tail :
      (b : TrickleBody) (t chunk : Text) (n : ℕ)
      → IsReading b
      → length job.file ≤ b.read_pos
      → result.clean ≡ true
      → job.tail_body ≡ some t
      → chunk ≡ take n (drop b.tail_pos t)
      → Advances b (got chunk, record b { tail_pos = b.tail_pos + length chunk })
  gives_tail b t chunk n w over ok e f = record {
    reading = record {
      within = w.within;
      file_first = λ _. omega (arith, w.within);
      flushes_clean = w.flushes_clean;
      no_fallback = w.no_fallback;
    };
    next = passed-tail b t chunk n e f;
    end_whole = λ h. absurd (false≢true h);
    end_clean = λ h. absurd (false≢true h);
    drips = λ h. absurd (false≢true (sym h ∙ ok));
  }

  read_tail-Advances :
      (p : ℕ) (look : Look) (b : TrickleBody)
      → IsReading b
      → length job.file ≤ b.read_pos
      → result.clean ≡ true
      → Advances b (read_tail p look job b)
  unfolding read_tail
  read_tail-Advances p look b w over ok =
      option_intro (Advances b) job.tail_body _ _
        (λ e. ends b w over ok (rw e (take_of_nil b.tail_pos)))
        (λ t e.
          read_stream_cases p look (drop b.tail_pos t)
            (λ r. Advances b (r.0, record b { tail_pos = b.tail_pos + r.1 }))
            (tail_stays read_failed b (stays read_failed b w refl refl))
            (λ used. tail_stays end_of_file b (ends b w over ok (rw e (all_taken b t used))))
            (λ chunk f. gives_tail b t chunk _ w over ok e f))
    where
      all_taken : (b : TrickleBody) (t : Text) → drop b.tail_pos t ≡ [] → take b.tail_pos t ≡ t
      all_taken b t used =
          sym (append-nil (take b.tail_pos t))
          ∙ ap (λ s. take b.tail_pos t ++ s) (sym used)
          ∙ take-append-drop b.tail_pos t

  flush_read-Goes :
      (p : ℕ) (looks : List Look) (b : TrickleBody)
      → All (IsLook job) looks
      → IsReading b
      → result.clean ≡ true
      → Goes b (flush_read p looks job b)
  unfolding flush_read
  flush_read-Goes p [] b _ w ok = tt
  flush_read-Goes p (look ∷ looks) b (l, ls) w ok =
      if_intro (Goes b) (ltb 0 (min p (look.before - b.read_pos))) _ _
        (λ more.
          read_file-Advances _ look b w (omega (arith, l.before_fits)) (ltb→lt 0 _ more)
            (ground arith))
        (λ _.
          if_intro (Goes b) (look.by_done && leb look.after b.read_pos) _ _
            (λ done. read_tail-Advances p look b w (used_up look b l done) ok)
            (λ _. flush_read-Goes p looks b ls w ok))
    where
      used_up :
          (look : Look) (b : TrickleBody)
          → IsLook job look
          → (look.by_done && leb look.after b.read_pos) ≡ true
          → length job.file ≤ b.read_pos
      used_up look b l done = ground (arith, l.after_full)

  switched :
      (b : TrickleBody)
      → IsReading b
      → (m : TrickleMode) → (is_flushing m ≡ true → result.clean ≡ true)
      → IsReading (record b { mode = m })
  switched b w m h = record {
    within = w.within;
    file_first = w.file_first;
    flushes_clean = h;
    no_fallback = w.no_fallback;
  }

  -- What a call does is told by the positions alone, so it may start from another mode.
  from_mode :
      (b : TrickleBody) (m : TrickleMode) (o : Option (ReadOutcome × TrickleBody))
      → Goes (record b { mode = m }) o
      → Goes b o
  from_mode b m none g = tt
  from_mode b m (some r) g = record {
    reading = g.reading;
    next = g.next;
    end_whole = g.end_whole;
    end_clean = g.end_clean;
    drips = g.drips;
  }

  on_result-Goes :
      (p : ℕ) (looks : List Look) (b : TrickleBody)
      → All (IsLook job) looks
      → IsReading b
      → Goes b (on_result result p looks job b)
  unfolding on_result
  on_result-Goes p looks b ls w =
      if_intro (Goes b) result.clean _ _
        (λ ok. from_mode b flushing _ (
          flush_read-Goes p looks (record b { mode = flushing }) ls
            (switched b w flushing (λ _. ok)) ok))
        (λ _. from_mode b aborted (some _) (
          stays virus_detected (record b { mode = aborted })
            (switched b w aborted (λ h. absurd (false≢true h))) refl refl))

  read_one-Goes :
      (p : ℕ) (looks : List Look) (b : TrickleBody)
      → All (IsLook job) looks
      → IsReading b
      → Goes b (read_one result p looks job b)
  unfolding read_one
  read_one-Goes p [] b _ w = tt
  read_one-Goes p (look ∷ looks) b (l, ls) w =
      if_intro (Goes b) (ltb b.read_pos look.before) _ _
        (λ more.
          read_file-Advances 1 look b w
            (omega (arith, l.before_fits, ltb→lt b.read_pos look.before more)) (omega arith)
            (λ _. omega arith))
        (λ _.
          if_intro (Goes b) (look.by_done && leb look.after b.read_pos) _ _
            (λ _. on_result-Goes p looks b ls w) (λ _. read_one-Goes p looks b ls w))

  -- A call of Read without the fallback gives the next bytes of the file and the tail, one at most
  -- while the verdict is not clean, and says that they end only after the last of them, for a clean
  -- verdict.
  pub read-Goes :
      (call : Call) (b : TrickleBody)
      → IsCall job call
      → IsReading b
      → Goes b (read result job call b)
  unfolding read trickle
  read-Goes call b c w =
      option_intro (Goes b) b.fallback _ _ (λ _. by_mode call b c w b.mode refl)
        (λ s e. absurd (ground (arith, e, w.no_fallback)))
    where
      by_mode :
          (call : Call) (b : TrickleBody)
          → IsCall job call
          → IsReading b
          → (m : TrickleMode) → b.mode ≡ m
          → Goes b (elim m [
            | aborted ↦ some (virus_detected, b)
            | flushing ↦ flush_read call.size call.looks job b
            | trickling ↦ trickle call.in_time result call.size call.looks job b
          ])
      by_mode call b c w trickling e =
          if_intro (Goes b) call.in_time _ _ (λ _. on_result-Goes call.size call.looks b c w)
            (λ _.
              if_intro (Goes b) (call.size == 0) _ _ (λ _. stays (got []) b w refl refl)
                (λ _. read_one-Goes call.size call.looks b c w))
      by_mode call b c w flushing e =
          flush_read-Goes call.size call.looks b c w (w.flushes_clean (ap is_flushing e))
      by_mode call b c w aborted e = stays virus_detected b w refl refl
