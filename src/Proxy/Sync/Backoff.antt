-- ===== src/Proxy/Sync/Backoff.antt =====
-- The wait before a new connection.
use i_filter_imitation.Common.{ℕ, zero, suc, ◌+◌, ◌^◌, ◌≤◌, min, ◌≡◌, refl, ap, ◌∙◌, arith}
use i_filter_imitation.Proxy.Sync.{
  Syncer, next_backoff, start_sync, on_subscribed, on_message, on_closed, on_cancelled, on_backoff,
  Step, connected, message, closed, backed_off, cancelled_subscribed, cancelled_waiting, Reach,
  here, next,
}

-- the wait behind `n` reconnections
abbrev pub wait_of : ℕ → ℕ
wait_of n = 2 ^ min n 5

wait_of_late : (n k : ℕ) → k ≡ suc (suc (suc (suc (suc n)))) → wait_of k ≡ 32
wait_of_late n k e = let m : min k 5 ≡ 5 = omega (arith, e) in ap (λ i. 2 ^ i) m

next_backoff-wait_of : (n : ℕ) → next_backoff (wait_of n) ≡ wait_of (n + 1)
unfolding next_backoff
next_backoff-wait_of zero = refl
next_backoff-wait_of (suc zero) = refl
next_backoff-wait_of (suc (suc zero)) = refl
next_backoff-wait_of (suc (suc (suc zero))) = refl
next_backoff-wait_of (suc (suc (suc (suc zero)))) = refl
next_backoff-wait_of (suc (suc (suc (suc (suc n))))) =
    rw
      (
        wait_of_late n (suc (suc (suc (suc (suc n))))) refl,
        wait_of_late (n + 1) (suc (suc (suc (suc (suc n)))) + 1) (omega arith),
      )
      refl

wait_of-bounds : (n : ℕ) → (1 ≤ wait_of n) × (wait_of n ≤ 32)
wait_of-bounds zero = omega arith
wait_of-bounds (suc zero) = omega arith
wait_of-bounds (suc (suc zero)) = omega arith
wait_of-bounds (suc (suc (suc zero))) = omega arith
wait_of-bounds (suc (suc (suc (suc zero)))) = omega arith
wait_of-bounds (suc (suc (suc (suc (suc n))))) =
    omega (arith, wait_of_late n (suc (suc (suc (suc (suc n))))) refl)

module _ {Reply S : Type 0} (load : Reply → S → S) where
  Step-wait_of :
      {s t : Syncer S}
      → Step load s t
      → s.backoff ≡ wait_of s.reconnects
      → t.backoff ≡ wait_of t.reconnects
  unfolding on_subscribed on_message on_closed on_cancelled on_backoff
  Step-wait_of (connected p) h = h
  Step-wait_of (message reply p) h = h
  Step-wait_of (closed p) h = h
  Step-wait_of {s} (backed_off reply p) h = ap next_backoff h ∙ next_backoff-wait_of s.reconnects
  Step-wait_of (cancelled_subscribed p) h = h
  Step-wait_of (cancelled_waiting p) h = h

  -- In every state that a synchronisation reaches, the wait before the next connection is 2 to the
  -- number of reconnections so far, at most 5 of which count: never less than 1 second and never more
  -- than 32, which is more than `max_backoff`.
  pub Reach-wait_of :
      (reply : Reply) (s : S) (t : Syncer S)
      → Reach load (start_sync load reply s) t
      → (t.backoff ≡ wait_of t.reconnects) × (1 ≤ t.backoff) × (t.backoff ≤ 32)
  unfolding start_sync
  Reach-wait_of reply s t r =
      let e = from_start r in let b = wait_of-bounds t.reconnects in (e, rw e b.0, rw e b.1)
    where
      from_start :
          {t : Syncer S} → Reach load (start_sync load reply s) t → t.backoff ≡ wait_of t.reconnects
      from_start here = refl
      from_start (next r st) = Step-wait_of st (from_start r)
