-- ===== src/Api/Blocklist/Tests.antt =====
-- A store with one domain that is added, disabled and added again.
use i_filter_imitation.Common.{[], ◌∷◌, List, true, false, none, some, codes, text_eq, ◌≡◌, refl}
use i_filter_imitation.Api.Blocklist.{
  Store, Services, UpdateRequest, duplicate, add, update, lookup, is_enabled, tell, set_member,
  update_entries,
}
use i_filter_imitation.Api.Blocklist.Sync.{Agrees, Op, op_add, op_update, step, run}

abbrev nothing : Store
nothing = record { entries = []; audit = []; redis = λ _. false; published = [] }

abbrev up : Services
up = record { database = true; redis = true }

abbrev no_redis : Services
no_redis = record { database = true; redis = false }

abbrev disable : UpdateRequest
disable = record { enabled = some false; comment = none; actor = codes "eve" }

abbrev ops : List (Services × Op)
ops =
    (up, op_add (codes "a.com") [] (codes "eve"))
    ∷ (up, op_update (codes "a.com") disable)
    ∷ (up, op_add (codes "b.com") [] (codes "eve"))
    ∷ []

members_after :
    ((run ops nothing).redis (codes "a.com") ≡ false)
    × ((run ops nothing).redis (codes "b.com") ≡ true)
unfolding run step add update lookup tell set_member update_entries text_eq
members_after = (refl, refl)

add_twice : (add up (codes "b.com") [] [] (run ops nothing)).0 ≡ duplicate
unfolding run step add update lookup tell set_member update_entries text_eq
add_twice = refl

nothing-Agrees : Agrees nothing
unfolding Agrees is_enabled
nothing-Agrees d = refl
