-- ===== src/Proxy/Sync.antt =====
-- internal/proxy/blocklist_sync.go and scanconfig_sync.go: a goroutine that loads a value from Redis
-- when it starts, at each message of its subscription, and after each new connection. The two differ
-- in what they load; the loops are the same and stand here once, for any `load`. A reply of Redis, a
-- message, a closed channel and the end of the context are the steps of the environment.
pub mod Backoff
pub mod Blocked
pub mod Race
mod Tests
use i_filter_imitation.Common.{
  ℕ, ◌+◌, ◌*◌, ◌≡◌, List, [], ◌∷◌, Bool, true, false, Option, none, some, ltb, if◌then◌else◌, Text,
}
use i_filter_imitation.Scan.Config.{ScanConfig}
use i_filter_imitation.Scan.Manager.{Manager, set_config}
use i_filter_imitation.Proxy.Blocklist.{Blocklist, new_blocklist}

-- Where the goroutine stands: it is about to subscribe, drains the subscription, waits before it loads
-- and subscribes again, or has returned.
pub data Phase : Type 0 where
  connecting subscribed waiting stopped : Phase

pub record Syncer (S : Type 0) : Type 0 where
  pub state : S
  pub phase : Phase
  pub backoff : ℕ
  pub reconnects : ℕ

-- in seconds
abbrev pub max_backoff : ℕ
max_backoff = 30

unfoldable pub next_backoff : ℕ → ℕ
next_backoff backoff = if ltb backoff max_backoff then backoff * 2 else backoff

-- a subscription, a closed channel, and the end of the context
unfoldable pub on_subscribed : {S : Type 0} → Syncer S → Syncer S
on_subscribed s = record s { phase = subscribed }

unfoldable pub on_closed : {S : Type 0} → Syncer S → Syncer S
on_closed s = record s { phase = waiting }

unfoldable pub on_cancelled : {S : Type 0} → Syncer S → Syncer S
on_cancelled s = record s { phase = stopped }

module _ {Reply S : Type 0} (load : Reply → S → S) where
  -- The load before the goroutine starts, with the reply to it.
  unfoldable pub start_sync : Reply → S → Syncer S
  start_sync reply s = record {
    state = load reply s;
    phase = connecting;
    backoff = 1;
    reconnects = 0;
  }

  -- a message, and the wait that ends
  unfoldable pub on_message : Reply → Syncer S → Syncer S
  on_message reply s = record s { state = load reply s.state }

  unfoldable pub on_backoff : Reply → Syncer S → Syncer S
  unfolding next_backoff
  on_backoff reply s = record s {
    state = load reply s.state;
    phase = connecting;
    backoff = next_backoff s.backoff;
    reconnects = s.reconnects + 1;
  }

  -- One step: the subscription, its loop, or the select that waits.
  pub data Step (s : Syncer S) : Syncer S → Type 0 where
    connected : s.phase ≡ connecting → Step s (on_subscribed s)
    message : (reply : Reply) → s.phase ≡ subscribed → Step s (on_message reply s)
    closed : s.phase ≡ subscribed → Step s (on_closed s)
    backed_off : (reply : Reply) → s.phase ≡ waiting → Step s (on_backoff reply s)
    cancelled_subscribed : s.phase ≡ subscribed → Step s (on_cancelled s)
    cancelled_waiting : s.phase ≡ waiting → Step s (on_cancelled s)

  pub data Reach (s : Syncer S) : Syncer S → Type 0 where
    here : Reach s s
    next : {t u : Syncer S} → Reach s t → Step t u → Reach s u

-- SMEMBERS: none for an error, which leaves the list as it is.
unfoldable pub load_blocklist : Option (List Text) → Option Blocklist → Option Blocklist
unfolding new_blocklist
load_blocklist none bl = bl
load_blocklist (some members) bl = some (new_blocklist members)

-- GET: no value or an error, a value that is no JSON of a configuration, or a configuration.
pub data ConfigReply : Type 0 where
  no_value malformed : ConfigReply
  config : ScanConfig → ConfigReply

unfoldable pub load_scan_config : ConfigReply → Manager → Manager
unfolding set_config
load_scan_config (config cfg) m = set_config cfg m
load_scan_config no_value m = m
load_scan_config malformed m = m
