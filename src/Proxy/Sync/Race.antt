-- ===== src/Proxy/Sync/Race.antt =====
-- The goroutine beside the value in Redis, which others change and publish. A publication reaches it
-- only while it is subscribed. A load may fail, and then the goroutine keeps what it has. Two fields are
-- no state of the program: `missed` counts the publications between the last load and the subscription
-- that follows it, and `failed` says that the last load failed.
use i_filter_imitation.Common.{ℕ, suc, ◌+◌, Bool, true, false, not, Option, none, some, ◌≡◌, refl}
use i_filter_imitation.Proxy.Sync.{
  Phase, connecting, subscribed, waiting, stopped, Syncer, start_sync, on_subscribed, on_closed,
  on_cancelled, on_message, on_backoff,
}

pub record World (V S : Type 0) : Type 0 where
  pub redis : V
  pub pending : ℕ
  pub missed : ℕ
  pub failed : Bool
  pub syncer : Syncer S

-- what a publication adds to the messages of a subscription, and to those that nobody gets
abbrev pub heard : Phase → ℕ → ℕ
heard connecting n = n
heard subscribed n = n + 1
heard waiting n = n
heard stopped n = n

abbrev pub unheard : Phase → ℕ → ℕ
unheard connecting n = n + 1
unheard subscribed n = n
unheard waiting n = n
unheard stopped n = n

module _ {V S : Type 0} (fetch : V → S) where
  -- none for an error or a reply that is refused, else the value that the goroutine makes of the reply
  abbrev load : Option V → S → S
  load none s = s
  load (some v) s = fetch v

  -- the reply of Redis to a load
  abbrev reply : Bool → V → Option V
  reply true v = some v
  reply false v = none

  unfoldable pub start : Bool → V → S → World V S
  start ok v s = record {
    redis = v;
    pending = 0;
    missed = 0;
    failed = not ok;
    syncer = start_sync load (reply ok v) s;
  }

  unfoldable pub publish : V → World V S → World V S
  publish v w = record w {
    redis = v;
    pending = heard w.syncer.phase w.pending;
    missed = unheard w.syncer.phase w.missed;
  }

  pub data Turn (w : World V S) : World V S → Type 0 where
    published : (v : V) → Turn w (publish v w)
    subscribes : w.syncer.phase ≡ connecting → Turn w (record w { syncer = on_subscribed w.syncer })
    receives :
        (n : ℕ) (ok : Bool)
        → w.syncer.phase ≡ subscribed
        → w.pending ≡ suc n
        → Turn w (record w {
          pending = n;
          missed = 0;
          failed = not ok;
          syncer = on_message load (reply ok w.redis) w.syncer;
        })
    loses :
        w.syncer.phase ≡ subscribed → Turn w (record w { pending = 0; syncer = on_closed w.syncer })
    reloads :
        (ok : Bool)
        → w.syncer.phase ≡ waiting
        → Turn w (record w {
          missed = 0;
          failed = not ok;
          syncer = on_backoff load (reply ok w.redis) w.syncer;
        })
    stops_subscribed :
        w.syncer.phase ≡ subscribed → Turn w (record w { syncer = on_cancelled w.syncer })
    stops_waiting : w.syncer.phase ≡ waiting → Turn w (record w { syncer = on_cancelled w.syncer })

  pub data Turns (w : World V S) : World V S → Type 0 where
    begun : Turns w w
    followed : {u v : World V S} → Turns w u → Turn u v → Turns w v

  abbrev FreshIn : Phase → ℕ → ℕ → Type 0 → Type 0
  FreshIn connecting p m E = m ≡ 0 → E
  FreshIn subscribed p m E = p ≡ 0 → m ≡ 0 → E
  FreshIn waiting p m E = Unit
  FreshIn stopped p m E = Unit

  abbrev Fresh : World V S → Type 0
  Fresh w =
      FreshIn w.syncer.phase w.pending w.missed (w.failed ≡ false → w.syncer.state ≡ fetch w.redis)

  -- A value that is published between the first load and the subscription is missed: the goroutine can
  -- be subscribed, with no message to read, and hold the value before.
  pub Turns-stale :
      (old new : V) (s : S)
      → (w : World V S) × Turns (start true old s) w
        × (w.syncer.phase ≡ subscribed)
        × (w.pending ≡ 0)
        × (w.redis ≡ new)
        × (w.syncer.state ≡ fetch old)
  unfolding start start_sync publish on_subscribed
  Turns-stale old new s =
      let w : World V S = publish new (start true old s) in
      (
        record w { syncer = on_subscribed w.syncer },
        followed (followed begun (published new)) (subscribes refl),
        refl,
        refl,
        refl,
        refl,
      )

  -- A load that fails is not made again before the next message: the goroutine can be subscribed, with
  -- no message to read and none missed, and hold what it held before the publication.
  pub Turns-failed :
      (old new : V) (s : S)
      → (w : World V S) × Turns (start true old s) w
        × (w.syncer.phase ≡ subscribed)
        × (w.pending ≡ 0)
        × (w.missed ≡ 0)
        × (w.redis ≡ new)
        × (w.syncer.state ≡ fetch old)
  unfolding start start_sync publish on_subscribed on_message
  Turns-failed old new s =
      let v : World V S = start true old s in
      let w : World V S = publish new (record v { syncer = on_subscribed v.syncer }) in
      (
        record w { pending = 0; missed = 0; failed = true; syncer = on_message load none w.syncer },
        followed (followed (followed begun (subscribes refl)) (published new))
            (receives 0 false refl refl),
        refl,
        refl,
        refl,
        refl,
        refl,
      )
