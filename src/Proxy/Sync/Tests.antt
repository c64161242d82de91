-- ===== src/Proxy/Sync/Tests.antt =====
-- A lost connection, and a domain on its way from a POST to the proxy.
use i_filter_imitation.Common.{
  ◌≤◌, List, Bool, ◌||◌, if◌then◌else◌, text_eq_swap, [], ◌∷◌, true, false, Option, none, some,
  Text, codes, text_eq, to_lower, lower, trim_space, trim, is_space, drop_while, Any, ◌≡◌, ◌↔◌,
  refl, arith,
}
use i_filter_imitation.Common.Regex.{match_string, nullable, deriv}
use i_filter_imitation.Api.Blocklist.{Store, Services, lookup, add, tell, set_member, is_enabled}
use i_filter_imitation.Api.Blocklist.Sync.{Agrees}
use i_filter_imitation.Api.Domain.{is_valid_domain}
use i_filter_imitation.Api.Handlers.{AddBody, Call, post, handle, handle_add}
use i_filter_imitation.Api.Handlers.WellFormed.{WellFormed}
use i_filter_imitation.Api.Handlers.Invariant.{serve}
use i_filter_imitation.Proxy.Blocklist.{Blocklist, new_blocklist, mem, host_name, is_blocked}
use i_filter_imitation.Proxy.Sync.{
  Syncer, start_sync, on_subscribed, on_message, on_closed, on_backoff, load_blocklist, connected,
  closed, backed_off, here, next,
}
use i_filter_imitation.Proxy.Sync.Backoff.{wait_of, Reach-wait_of}
use i_filter_imitation.Proxy.Sync.Race.{World, start}
use i_filter_imitation.Proxy.Sync.Blocked.{Members, Blocking, on_message-serve_iff}

abbrev begin : Syncer (Option Blocklist)
begin = start_sync load_blocklist none none

abbrev again : Syncer (Option Blocklist)
again = on_backoff load_blocklist none (on_closed (on_subscribed begin))

Reach-wait_of_example :
    (again.backoff ≡ wait_of again.reconnects) × (1 ≤ again.backoff) × (again.backoff ≤ 32)
unfolding start_sync on_subscribed on_closed
Reach-wait_of_example =
    Reach-wait_of load_blocklist none none again
      (next (next (next here (connected refl)) (closed refl)) (backed_off none refl))

abbrev nothing : Store
nothing = record { entries = []; audit = []; redis = λ _. false; published = [] }

abbrev up : Services
up = record { database = true; redis = true }

abbrev body : AddBody
body = record { domain = codes " A.com"; comment = []; actor = codes "eve" }

abbrev calls : List (Services × Call)
calls = (up, post (some body)) ∷ []

nothing-Agrees : Agrees nothing
unfolding Agrees is_enabled
nothing-Agrees d = refl

nothing-WellFormed : WellFormed nothing
nothing-WellFormed = record { named = tt; unique = tt }

abbrev members : List Text
members = codes "a.com" ∷ []

members-Members : Members (handle_add up (some body) nothing).1.redis members
unfolding Members mem handle_add is_valid_domain match_string nullable deriv text_eq to_lower lower
    trim_space trim is_space drop_while add lookup tell set_member
members-Members d = rw (text_eq_swap (codes "a.com") d) (same_member (text_eq d (codes "a.com")))
  where
    same_member : (b : Bool) → (b || false) ≡ (if b then true else false)
    same_member b = ground arith

served-Members : Members (serve calls nothing).redis members
unfolding serve handle
served-Members = members-Members

on_message-serve_iff_example :
    (is_blocked (on_message load_blocklist (some members) begin).state (codes "a.com:443") ≡ true)
    ↔ Any (Blocking (host_name (codes "a.com:443"))) (serve calls nothing).entries
on_message-serve_iff_example =
    on_message-serve_iff calls nothing members begin (codes "a.com:443") (refl, tt) nothing-Agrees
      nothing-WellFormed served-Members

abbrev lists : List Text → Option Blocklist
lists ms = some (new_blocklist ms)

abbrev fresh_world : World (List Text) (Option Blocklist)
fresh_world = start lists true members none
