-- ===== src/Api/Handlers.antt =====
-- internal/api/handler.go: the handlers of the blocklist. Decoding JSON and the escapes of a path are
-- the standard library's, so that a handler gets the decoded body, or none if decoding failed, and the
-- unescaped value of the path, or none. A query parameter is the text that the request gives for it.
pub mod Laws
pub mod WellFormed
pub mod Invariant
mod Tests
use i_filter_imitation.Common.{
  [], Bool, true, false, Option, none, some, if◌then◌else◌, Text, codes, text_eq, to_lower,
  trim_space,
}
use i_filter_imitation.Api.Response.{Body, Response, no_body, json_ok, json_error, value}
use i_filter_imitation.Api.Domain.{is_valid_domain}
use i_filter_imitation.Api.Blocklist.{
  Entry, UpdateRequest, Store, Services, Answer, done, entry, duplicate, not_found, internal, add,
  update, remove,
}

pub record AddBody : Type 0 where
  pub domain : Text
  pub comment : Text
  pub actor : Text

pub record RemoveBody : Type 0 where
  pub actor : Text
  pub comment : Text

-- the domain of a body or of a path, as it is looked up
abbrev pub normal : Text → Text
normal d = to_lower (trim_space d)

abbrev pub internal_error : Response Entry
internal_error = json_error (codes "internal error") 500

-- The answer to the client for each result of the store.
abbrev pub add_response : Answer → Response Entry
add_response (entry e) = record { status = 201; body = value e }
add_response duplicate = json_error (codes "domain already exists") 409
add_response not_found = internal_error
add_response internal = internal_error
add_response done = internal_error

unfoldable pub handle_add : Services → Option AddBody → Store → Response Entry × Store
unfolding add to_lower trim_space is_valid_domain text_eq
handle_add on none s = (json_error (codes "invalid JSON") 400, s)
handle_add on (some b) s =
    let domain = normal b.domain in
    let r = add on domain b.comment b.actor s in
    if text_eq domain []
    then (json_error (codes "domain is required") 400, s)
    else if is_valid_domain domain
    then (add_response r.0, r.1)
    else (
      json_error
          (codes
            "invalid domain: must be a plain hostname (e.g. example.com or *.example.com), without scheme or path")
          400,
      s,
    )

-- what is wrong with the value of a path, or the domain that it names
pub data PathDomain : Type 0 where
  domain : Text → PathDomain
  invalid : Text → PathDomain

unfoldable pub path_domain : Option Text → PathDomain
unfolding to_lower trim_space text_eq
path_domain none = invalid (codes "invalid domain encoding")
path_domain (some d) =
    if text_eq (normal d) [] then invalid (codes "domain is required") else domain (normal d)

abbrev pub update_response : Answer → Response Entry
update_response (entry e) = json_ok e
update_response not_found = json_error (codes "domain not found") 404
update_response duplicate = internal_error
update_response internal = internal_error
update_response done = internal_error

abbrev says_nothing : UpdateRequest → Bool
says_nothing req = elim req.enabled [
  | some _ ↦ false
  | none ↦ elim req.comment [ some _ ↦ false | none ↦ true ]
]

-- the return when the path names no domain
unfoldable pub with_path :
    Option Text → (Text → Response Entry × Store) → Store → Response Entry × Store
unfolding path_domain
with_path path k s = elim (path_domain path) [
  | invalid msg ↦ (json_error msg 400, s)
  | domain d ↦ k d
]

-- `handleUpdate` from the decoding of the body on
unfoldable pub update_body : Services → Text → Option UpdateRequest → Store → Response Entry × Store
unfolding update
update_body on d none s = (json_error (codes "invalid JSON") 400, s)
update_body on d (some req) s =
    let r = update on d req s in
    if says_nothing req
    then (json_error (codes "at least one of enabled or comment is required") 400, s)
    else (update_response r.0, r.1)

unfoldable pub handle_update :
    Services → Option Text → Option UpdateRequest → Store → Response Entry × Store
unfolding with_path update_body
handle_update on path body s = with_path path (λ d. update_body on d body s) s

abbrev pub remove_response : Answer → Response Entry
remove_response done = record { status = 204; body = no_body }
remove_response not_found = json_error (codes "domain not found") 404
remove_response duplicate = internal_error
remove_response internal = internal_error
remove_response (entry e) = internal_error

-- The body is what decoding left of it, errors ignored.
unfoldable pub handle_remove : Services → Option Text → RemoveBody → Store → Response Entry × Store
unfolding with_path remove
handle_remove on path b s =
    with_path path (λ d. let r = remove on d b.actor b.comment s in (remove_response r.0, r.1)) s

-- One request that changes the blocklist.
pub data Call : Type 0 where
  post : Option AddBody → Call
  patch : Option Text → Option UpdateRequest → Call
  delete : Option Text → RemoveBody → Call

unfoldable pub handle : Services → Call → Store → Response Entry × Store
unfolding handle_add handle_update handle_remove
handle on (post b) s = handle_add on b s
handle on (patch path b) s = handle_update on path b s
handle on (delete path b) s = handle_remove on path b s
