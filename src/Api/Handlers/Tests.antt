-- ===== src/Api/Handlers/Tests.antt =====
-- A store that gets a domain by a POST, and requests that are refused.
use i_filter_imitation.Common.{
  List, [], ◌∷◌, ◌++◌, true, false, if◌then◌else◌, none, some, codes, text_eq, to_lower, lower,
  trim_space, trim, is_space, drop_while, ◌≡◌, ◌≢◌, refl,
}
use i_filter_imitation.Common.Regex.{match_string, nullable, deriv}
use i_filter_imitation.Api.Response.{
  Response, HttpRequest, bearer, healthz, json_error, new_handler, json_ok,
}
use i_filter_imitation.Api.Domain.{is_valid_domain}
use i_filter_imitation.Api.Blocklist.{Store, Services, UpdateRequest, lookup, add, update}
use i_filter_imitation.Api.Handlers.{
  AddBody, Call, post, patch, delete, handle_add, handle, handle_update, with_path, path_domain,
  update_body,
}
use i_filter_imitation.Api.Handlers.Laws.{Outcome, handle-Outcome, new_handler-bearer}
use i_filter_imitation.Api.Handlers.WellFormed.{WellFormed}
use i_filter_imitation.Api.Handlers.Invariant.{serve, serve-WellFormed}

abbrev nothing : Store
nothing = record { entries = []; audit = []; redis = λ _. false; published = [] }

abbrev up : Services
up = record { database = true; redis = true }

abbrev body : AddBody
body = record { domain = codes " A.com"; comment = []; actor = codes "eve" }

abbrev scheme : AddBody
scheme = record { domain = codes "http://a.com"; comment = []; actor = codes "eve" }

abbrev comment_only : UpdateRequest
comment_only = record { enabled = none; comment = some (codes "x"); actor = codes "eve" }

statuses :
    ((handle_add up (some body) nothing).0.status ≡ 201)
    × ((handle_add up (some scheme) nothing).0.status ≡ 400)
    × ((handle_update up (some (codes "b.com")) (some comment_only) nothing).0.status ≡ 404)
    × ((handle_update up none none nothing).0.status ≡ 400)
unfolding handle_add is_valid_domain match_string nullable deriv text_eq to_lower lower trim_space
    trim is_space drop_while add lookup handle_update with_path path_domain update_body update
statuses = (refl, refl, refl, refl)

handle-Outcome_example : Outcome nothing (handle up (post (some body)) nothing)
handle-Outcome_example = handle-Outcome up (post (some body)) nothing

abbrev calls : List (Services × Call)
calls =
    (up, post (some body))
    ∷ (up, patch (some (codes "a.com")) (some comment_only))
    ∷ (up, delete none (record { actor = []; comment = [] }))
    ∷ []

nothing-WellFormed : WellFormed nothing
nothing-WellFormed = record { named = tt; unique = tt }

serve-WellFormed_example : WellFormed (serve calls nothing)
serve-WellFormed_example = serve-WellFormed calls nothing nothing-WellFormed

abbrev asked : HttpRequest
asked = record { path = codes "/api/v1/blocklist"; authorization = codes "Bearer k" }

abbrev mux : HttpRequest → Store → Response Store × Store
mux r s = (json_ok s, s)

new_handler-bearer_example : new_handler (codes "k") mux asked nothing ≡ (
    if text_eq asked.authorization (bearer ++ codes "k")
    then mux asked nothing
    else (json_error (codes "unauthorized") 401, nothing))
new_handler-bearer_example = new_handler-bearer (codes "k") mux asked nothing no_key other
  where
    no_key : codes "k" ≢ []
    no_key e = cc

    other : asked.path ≢ healthz
    other e = cc
