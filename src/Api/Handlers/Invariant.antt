-- ===== src/Api/Handlers/Invariant.antt =====
-- What every sequence of requests keeps of the table and of the Redis set.
use i_filter_imitation.Common.{
  List, [], ◌∷◌, ◌++◌, true, Option, none, some, Text, text_eq, ◌≡◌, if_intro, All,
}
use i_filter_imitation.Api.Response.{Response}
use i_filter_imitation.Api.Domain.{is_valid_domain}
use i_filter_imitation.Api.Domain.Grammar.{IsDomain, is_valid_domain_iff}
use i_filter_imitation.Api.Blocklist.{Entry, UpdateRequest, Store, Services, add, update, remove}
use i_filter_imitation.Api.Blocklist.Sync.{Agrees, add-Agrees, update-Agrees, remove-Agrees}
use i_filter_imitation.Api.Handlers.{
  AddBody, Call, post, patch, delete, normal, says_nothing, handle_add, update_body, handle_update,
  handle_remove, handle,
}
use i_filter_imitation.Api.Handlers.Laws.{with_path_intro, handle_add_iff, no_domain}
use i_filter_imitation.Api.Handlers.WellFormed.{
  WellFormed, tell-entries, add-WellFormed, update-WellFormed, remove-WellFormed,
}

-- What the operations of the store keep, each request keeps.
module _ (Q : Store → Type 0) (on : Services) (s : Store) where
  abbrev Kept : Response Entry × Store → Type 0
  Kept r = Q r.1

  add-kept :
      Q s
      → ((d comment actor : Text) → IsDomain d → Q (add on d comment actor s).1)
      → (b : Option AddBody) → Q (handle_add on b s).1
  unfolding handle_add
  add-kept q added none = q
  add-kept q added (some b) =
      if_intro Kept (text_eq (normal b.domain) []) _ _ (λ _. q)
        (λ _.
          if_intro Kept (is_valid_domain (normal b.domain)) _ _
            (λ v.
              added (normal b.domain) b.comment b.actor
                ((is_valid_domain_iff (normal b.domain)).0 v))
            (λ _. q))

  update-kept :
      Q s
      → ((d : Text) (req : UpdateRequest) → Q (update on d req s).1)
      → (d : Text) (body : Option UpdateRequest) → Q (update_body on d body s).1
  unfolding update_body
  update-kept q changed d none = q
  update-kept q changed d (some req) =
      if_intro Kept (says_nothing req) _ _ (λ _. q) (λ _. changed d req)

  handle-kept :
      Q s
      → ((d comment actor : Text) → IsDomain d → Q (add on d comment actor s).1)
      → ((d : Text) (req : UpdateRequest) → Q (update on d req s).1)
      → ((d actor comment : Text) → Q (remove on d actor comment s).1)
      → (c : Call) → Q (handle on c s).1
  unfolding handle handle_update handle_remove
  handle-kept q added changed removed (post b) = add-kept q added b
  handle-kept q added changed removed (patch path body) =
      with_path_intro Kept path _ s (λ _. q) (λ d. update-kept q changed d body)
  handle-kept q added changed removed (delete path b) =
      with_path_intro Kept path _ s (λ _. q) (λ d. removed d b.actor b.comment)

-- The requests one after the other, each with the services that answer.
unfoldable pub serve : List (Services × Call) → Store → Store
serve [] s = s
serve ((on, c) ∷ calls) s = serve calls (handle on c s).1

pub handle-WellFormed :
    (on : Services) (c : Call) (s : Store) → WellFormed s → WellFormed (handle on c s).1
handle-WellFormed on c s w =
    handle-kept WellFormed on s w (λ d comment actor i. add-WellFormed on d comment actor s i w)
      (λ d req. update-WellFormed on d req s w)
      (λ d actor comment. remove-WellFormed on d actor comment s w) c

pub handle-Agrees :
    (on : Services) (c : Call) (s : Store) → on.redis ≡ true → Agrees s → Agrees (handle on c s).1
handle-Agrees on c s up a =
    handle-kept Agrees on s a (λ d comment actor _. add-Agrees on d comment actor s up a)
      (λ d req. update-Agrees on d req s up a)
      (λ d actor comment. remove-Agrees on d actor comment s up a) c

-- No request, whatever the services do, puts a domain of the wrong form or a second entry of a domain
-- into the table.
pub serve-WellFormed :
    (calls : List (Services × Call)) (s : Store) → WellFormed s → WellFormed (serve calls s)
unfolding serve
serve-WellFormed [] s w = w
serve-WellFormed ((on, c) ∷ calls) s w =
    serve-WellFormed calls (handle on c s).1 (handle-WellFormed on c s w)

pub serve-Agrees :
    (calls : List (Services × Call)) (s : Store)
    → All (λ (p : Services × Call). p.0.redis ≡ true) calls
    → Agrees s
    → Agrees (serve calls s)
unfolding serve
serve-Agrees [] s _ a = a
serve-Agrees ((on, c) ∷ calls) s (up, ups) a =
    serve-Agrees calls (handle on c s).1 ups (handle-Agrees on c s up a)

-- the entry of a POST
abbrev pub new_entry : AddBody → Entry
new_entry b = record {
  domain = normal b.domain;
  enabled = true;
  comment = b.comment;
  created_by = b.actor;
  updated_by = b.actor;
}

pub handle_add-entries :
    (on : Services) (b : AddBody) (s : Store)
    → (handle_add on (some b) s).0.status ≡ 201
    → (handle_add on (some b) s).1.entries ≡ s.entries ++ new_entry b ∷ []
unfolding handle_add add
handle_add-entries on b s created =
    let (db, i, free) = (handle_add_iff on b s).0 created in
    rw (no_domain (normal b.domain) i, (is_valid_domain_iff (normal b.domain)).1 i, db, free)
      (tell-entries on (normal b.domain) true _ _)
