-- ===== src/Logger/Sender/Delivery.antt =====
-- Which records are written.
use i_filter_imitation.Common.{
  ℕ, ◌≤◌, List, [], ◌∷◌, ◌++◌, append_assoc, append-nil, Bool, true, ◌||◌, ltb, length,
  length-append, if◌then◌else◌, All, ◌≡◌, refl, sym, ap, ◌∙◌, arith, if_intro, Bool-cases, inl, inr,
}
use i_filter_imitation.Logger.Sender.{Sender, Network, new_sender, send, write, drain, flush, close}

-- A call of Send, or a round of the loop.
pub data Event (R : Type 0) : Type 0 where
  sends : R → Event R
  drains : Network → Event R

-- The network does not fail.
abbrev pub Works : Network → Type 0
Works n = (n.dials ≡ true) × (n.writes ≡ true)

or_true : (b : Bool) → (b || true) ≡ true
or_true b = ground arith

module _ {R : Type 0} where
  unfoldable pub step : Event R → Sender R → Sender R
  unfolding send drain
  step (sends r) s = send r s
  step (drains n) s = drain n s

  unfoldable pub run : List (Event R) → Sender R → Sender R
  unfolding step
  run [] s = s
  run (e ∷ es) s = run es (step e s)

  -- the records that find room in the channel
  unfoldable pub taken : List (Event R) → Sender R → List R
  unfolding step
  taken [] s = []
  taken (sends r ∷ es) s =
      let rest = taken es (step (sends r) s) in
      if ltb (length s.ch) s.buf_size then r ∷ rest else rest
  taken (drains n ∷ es) s = taken es (step (drains n) s)

  abbrev pub EventWorks : Event R → Type 0
  EventWorks (sends r) = Unit
  EventWorks (drains n) = Works n

  -- everything that was taken and is not lost
  abbrev kept : Sender R → List R
  kept s = s.written ++ s.ch

  write-Works :
      (n : Network) (r : R) (s : Sender R)
      → Works n
      → ((write n r s).written ≡ s.written ++ r ∷ []) × ((write n r s).ch ≡ s.ch)
  unfolding write
  write-Works n r s (d, w) = rw (d, or_true s.connected, w) (refl, refl)

  drain-kept : (n : Network) (s : Sender R) → Works n → kept (drain n s) ≡ kept s
  unfolding drain
  drain-kept n s w = by_channel s.ch
    where
      by_channel : (ch : List R) → kept (drain n (record s { ch = ch })) ≡ s.written ++ ch
      by_channel [] = refl
      by_channel (r ∷ rest) =
          let (a, b) = write-Works n r (record s { ch = rest }) w in
          rw (a, b) (append_assoc s.written (r ∷ []) rest)

  send-kept :
      (r : R) (s : Sender R) (rest : List R)
      → kept (send r s) ++ rest
        ≡ kept s ++ (if ltb (length s.ch) s.buf_size then r ∷ rest else rest)
  unfolding send
  send-kept r s rest = elim (Bool-cases (ltb (length s.ch) s.buf_size)) [
    | inl e ↦ rw e (
        ap (λ x. x ++ rest) (sym (append_assoc s.written s.ch (r ∷ [])))
        ∙ append_assoc (s.written ++ s.ch) (r ∷ []) rest)
    | inr e ↦ rw e refl
  ]

  -- The channel holds no more records than its size.
  abbrev pub Fits : Sender R → Type 0
  Fits s = length s.ch ≤ s.buf_size

  send-Fits : (r : R) (s : Sender R) → Fits s → Fits (send r s)
  unfolding send
  send-Fits r s l =
      if_intro Fits (ltb (length s.ch) s.buf_size) _ _
        (λ e. let more = length-append s.ch (r ∷ []) in ground (arith, e, more)) (λ _. l)

  write-Fits : (n : Network) (r : R) (s : Sender R) → Fits s → Fits (write n r s)
  unfolding write
  write-Fits n r s l =
      if_intro Fits (s.connected || n.dials) _ _ (λ _. if_intro Fits n.writes _ _ (λ _. l) (λ _. l))
        (λ _. l)

  drain-Fits : (n : Network) (s : Sender R) → Fits s → Fits (drain n s)
  unfolding drain
  drain-Fits n s l = by_channel s.ch l
    where
      by_channel : (ch : List R) → length ch ≤ s.buf_size → Fits (drain n (record s { ch = ch }))
      by_channel [] h = h
      by_channel (r ∷ rest) h = write-Fits n r (record s { ch = rest }) (omega (arith, h))

  run-kept :
      (es : List (Event R)) (s : Sender R)
      → All EventWorks es
      → kept (run es s) ≡ kept s ++ taken es s
  unfolding run taken step
  run-kept [] s w = sym (append-nil (kept s))
  run-kept (sends r ∷ es) s (_, w) = run-kept es (send r s) w ∙ send-kept r s (taken es (send r s))
  run-kept (drains n ∷ es) s (wn, w) =
      run-kept es (drain n s) w ∙ ap (λ x. x ++ taken es (drain n s)) (drain-kept n s wn)

  flush-Works :
      (ns : List Network) (ch : List R) (s : Sender R)
      → All Works ns
      → length ch ≤ length ns
      → (flush ns ch s).written ≡ s.written ++ ch
  unfolding flush
  flush-Works ns [] s w l = sym (append-nil s.written)
  flush-Works [] (r ∷ ch) s w l = absurd (omega arith)
  flush-Works (n ∷ ns) (r ∷ ch) s (wn, w) l =
      flush-Works ns ch _ w (omega arith)
      ∙ ap (λ x. x ++ ch) (write-Works n r (record s { ch = ch }) wn).0
      ∙ append_assoc s.written (r ∷ []) ch

  -- While the network does not fail, every record that finds room in the channel is written once, in
  -- the order of the calls, by the time Close returns, however calls and rounds interleave; as many
  -- rounds behind Close as there are records in the channel are enough.
  pub close-taken :
      (es : List (Event R)) (ns : List Network) (buf_size : ℕ) (dials : Bool)
      → All EventWorks es
      → All Works ns
      → length (run es (new_sender buf_size dials)).ch ≤ length ns
      → (close ns (run es (new_sender buf_size dials))).written
        ≡ taken es (new_sender buf_size dials)
  unfolding close new_sender
  close-taken es ns buf_size dials w wn l =
      flush-Works ns _ (run es (new_sender buf_size dials)) wn l
      ∙ run-kept es (new_sender buf_size dials) w

  -- The channel never holds more records than its size, whatever the network does.
  pub run-Fits : (es : List (Event R)) (s : Sender R) → Fits s → Fits (run es s)
  unfolding run step
  run-Fits [] s l = l
  run-Fits (sends r ∷ es) s l = run-Fits es (send r s) (send-Fits r s l)
  run-Fits (drains n ∷ es) s l = run-Fits es (drain n s) (drain-Fits n s l)
