-- ===== src/Api/Handlers/Laws.antt =====
-- What the handlers answer, and what they leave in the store.
use mathlib.Core.Bool.{false≢true}
use i_filter_imitation.Common.{
  ◌<◌, ◌≤◌, [], ◌∷◌, ◌++◌, Bool, true, false, Option, none, some, if◌then◌else◌, Text, codes,
  text_eq, text_eq→eq, text_eq-append, cut_prefix, cut_prefix-append, cut_prefix_of_append, ◌≡◌,
  ◌≢◌, ◌↔◌, inl, inr, refl, sym, ap, ◌∙◌, subst, arith, if_intro, option_intro, Bool-cases,
  Option-cases,
}
use i_filter_imitation.Api.Response.{
  Response, HttpRequest, json_error, healthz, bearer, bearer_auth, new_handler,
}
use i_filter_imitation.Api.Domain.{is_valid_domain}
use i_filter_imitation.Api.Domain.Grammar.{IsDomain, is_valid_domain_iff}
use i_filter_imitation.Api.Blocklist.{
  Entry, AuditEntry, UpdateRequest, Store, Services, Answer, lookup, tell, set_member, add, update,
  remove, action_of, coalesce,
}
use i_filter_imitation.Api.Handlers.{
  AddBody, Call, post, patch, delete, normal, add_response, update_response, remove_response,
  handle_add, handle_update, handle_remove, handle, path_domain, PathDomain, domain, invalid,
  says_nothing, with_path, update_body,
}

-- Either the request succeeded and left one more line in the audit log, or it failed and left the
-- store as it was.
pub data Outcome (s : Store) (r : Response Entry × Store) : Type 0 where
  succeeded : (a : AuditEntry) → r.0.status < 300 → r.1.audit ≡ s.audit ++ a ∷ [] → Outcome s r
  failed : 400 ≤ r.0.status → r.1 ≡ s → Outcome s r

tell-audit :
    (on : Services) (d : Text) (b : Bool) (m : Text) (s : Store) → (tell on d b m s).audit ≡ s.audit
unfolding tell set_member
tell-audit on d b m s =
    if_intro (λ (t : Store). t.audit ≡ s.audit) on.redis _ _ (λ _. refl) (λ _. refl)

add-Outcome :
    (on : Services) (d comment actor : Text) (s : Store)
    → let r = add on d comment actor s in Outcome s (add_response r.0, r.1)
unfolding add
add-Outcome on d comment actor s =
    if_intro (λ (r : Answer × Store). Outcome s (add_response r.0, r.1)) on.database _ _
      (λ _.
        option_intro (λ (r : Answer × Store). Outcome s (add_response r.0, r.1))
          (lookup d s.entries) _ _ (λ _. succeeded _ (omega arith) (tell-audit on d true _ _))
          (λ _ _. failed (omega arith) refl))
      (λ _. failed (omega arith) refl)

update-Outcome :
    (on : Services) (d : Text) (req : UpdateRequest) (s : Store)
    → let r = update on d req s in Outcome s (update_response r.0, r.1)
unfolding update
update-Outcome on d req s =
    if_intro (λ (r : Answer × Store). Outcome s (update_response r.0, r.1)) on.database _ _
      (λ _.
        option_intro (λ (r : Answer × Store). Outcome s (update_response r.0, r.1))
          (lookup d s.entries) _ _ (λ _. failed (omega arith) refl)
          (λ e _.
            let a : AuditEntry = record {
              domain = d;
              action = action_of req.enabled;
              actor = req.actor;
              comment = coalesce req.comment [];
            } in
            succeeded a (omega arith) (
              option_intro (λ (t : Store). t.audit ≡ s.audit ++ a ∷ []) req.enabled _ _ (λ _. refl)
                (λ b _. tell-audit on d b _ _))))
      (λ _. failed (omega arith) refl)

remove-Outcome :
    (on : Services) (d actor comment : Text) (s : Store)
    → let r = remove on d actor comment s in Outcome s (remove_response r.0, r.1)
unfolding remove
remove-Outcome on d actor comment s =
    if_intro (λ (r : Answer × Store). Outcome s (remove_response r.0, r.1)) on.database _ _
      (λ _.
        option_intro (λ (r : Answer × Store). Outcome s (remove_response r.0, r.1))
          (lookup d s.entries) _ _ (λ _. failed (omega arith) refl)
          (λ _ _. succeeded _ (omega arith) (tell-audit on d false _ _)))
      (λ _. failed (omega arith) refl)

handle_add-Outcome :
    (on : Services) (b : Option AddBody) (s : Store) → Outcome s (handle_add on b s)
unfolding handle_add
handle_add-Outcome on none s = failed (omega arith) refl
handle_add-Outcome on (some b) s =
    if_intro (Outcome s) (text_eq (normal b.domain) []) _ _ (λ _. failed (omega arith) refl)
      (λ _.
        if_intro (Outcome s) (is_valid_domain (normal b.domain)) _ _
          (λ _. add-Outcome on (normal b.domain) b.comment b.actor s)
          (λ _. failed (omega arith) refl))

pub with_path_intro :
    (P : Response Entry × Store → Type 0) (path : Option Text) (k : Text → Response Entry × Store)
    (s : Store)
    → ((msg : Text) → P (json_error msg 400, s))
    → ((d : Text) → P (k d))
    → P (with_path path k s)
unfolding with_path
with_path_intro P path k s bad good = split_path (path_domain path)
  where
    split_path :
        (p : PathDomain) → P (elim p [ invalid msg ↦ (json_error msg 400, s) | domain d ↦ k d ])
    split_path (invalid msg) = bad msg
    split_path (domain d) = good d

update_body-Outcome :
    (on : Services) (d : Text) (body : Option UpdateRequest) (s : Store)
    → Outcome s (update_body on d body s)
unfolding update_body
update_body-Outcome on d none s = failed (omega arith) refl
update_body-Outcome on d (some req) s =
    if_intro (Outcome s) (says_nothing req) _ _ (λ _. failed (omega arith) refl)
      (λ _. update-Outcome on d req s)

-- Every request for a change of the blocklist either is answered with a status below 300 and adds one
-- line to the audit log, or is answered with a status from 400 up and leaves the store as it was,
-- whether the database and Redis answer or not.
pub handle-Outcome : (on : Services) (c : Call) (s : Store) → Outcome s (handle on c s)
unfolding handle handle_update handle_remove
handle-Outcome on (post b) s = handle_add-Outcome on b s
handle-Outcome on (patch path body) s =
    with_path_intro (Outcome s) path _ s (λ _. failed (omega arith) refl)
      (λ d. update_body-Outcome on d body s)
handle-Outcome on (delete path b) s =
    with_path_intro (Outcome s) path _ s (λ _. failed (omega arith) refl)
      (λ d. remove-Outcome on d b.actor b.comment s)

pub no_domain : (d : Text) → IsDomain d → text_eq d [] ≡ false
unfolding is_valid_domain
no_domain d i = elim (Bool-cases (text_eq d [])) [
  | inl e ↦ absurd (
      false≢true
        (subst (λ x. is_valid_domain x ≡ true) (text_eq→eq d [] e) ((is_valid_domain_iff d).1 i)))
  | inr e ↦ e
]

add-created :
    (on : Services) (d comment actor : Text) (s : Store)
    → (add_response (add on d comment actor s).0).status ≡ 201
    → (on.database ≡ true) × (lookup d s.entries ≡ none)
unfolding add
add-created on d comment actor s =
    if_intro
      (λ (r : Answer × Store).
        (add_response r.0).status ≡ 201 → (on.database ≡ true) × (lookup d s.entries ≡ none))
      on.database _ _
      (λ db.
        option_intro
          (λ (r : Answer × Store).
            (add_response r.0).status ≡ 201 → (on.database ≡ true) × (lookup d s.entries ≡ none))
          (lookup d s.entries) _ _ (λ free _. (db, free)) (λ _ _ h. absurd (omega (arith, h))))
      (λ _ h. absurd (omega (arith, h)))

-- A POST with a decoded body is answered with 201 if and only if the database answers, the domain, in
-- lower case and trimmed, has the form of a domain, and the table has no entry of it.
pub handle_add_iff :
    (on : Services) (b : AddBody) (s : Store)
    → ((handle_add on (some b) s).0.status ≡ 201) ↔ (
        (on.database ≡ true)
        × IsDomain (normal b.domain)
        × (lookup (normal b.domain) s.entries ≡ none))
unfolding handle_add
handle_add_iff on b s = (
  if_intro (λ (r : Response Entry × Store). r.0.status ≡ 201 → Created) (text_eq d []) _ _
      (λ _ h. absurd (omega (arith, h)))
      (λ _.
        if_intro (λ (r : Response Entry × Store). r.0.status ≡ 201 → Created) (is_valid_domain d) _
          _
          (λ v h.
            let (db, free) = add-created on d b.comment b.actor s h in
            (db, (is_valid_domain_iff d).0 v, free))
          (λ _ h. absurd (omega (arith, h)))),
  λ (db, i, free).
      rw (no_domain d i, (is_valid_domain_iff d).1 i) (unfold add in rw (db, free) refl),
)
  where
    d : Text
    d = normal b.domain

    Created : Type 0
    Created = (on.database ≡ true) × IsDomain d × (lookup d s.entries ≡ none)

module _ {A S : Type 0} (api_key : Text) (mux : HttpRequest → S → Response A × S) where
  off : (s t : Text) → s ≢ t → text_eq s t ≡ false
  off s t n = elim (Bool-cases (text_eq s t)) [ inl e ↦ absurd (n (text_eq→eq s t e)) | inr e ↦ e ]

  lacks : {given : Text} → cut_prefix given bearer ≡ none → given ≢ bearer ++ api_key
  lacks n e =
      let found = ap (λ x. cut_prefix x bearer) e ∙ cut_prefix_of_append bearer api_key in
      absurd (ground (arith, sym n ∙ found))

  token_test :
      (given : Text)
      → (y : Response A × S) (n : Response A × S)
      → (elim (cut_prefix given bearer) [
        | none ↦ n
        | some token ↦ if text_eq token api_key then y else n
      ])
        ≡ (if text_eq given (bearer ++ api_key) then y else n)
  token_test given y n = elim (Option-cases (cut_prefix given bearer)) [
    | inl e ↦ rw (e, off given (bearer ++ api_key) (lacks e)) refl
    | inr (token, e) ↦
        rw (e, cut_prefix-append given bearer token e, text_eq-append bearer token api_key) refl
  ]

  -- With an API key, a request for another path than /healthz reaches the mux if its Authorization
  -- field is `Bearer ` and the key; otherwise it is answered with 401 and changes nothing.
  pub new_handler-bearer :
      (r : HttpRequest) (s : S)
      → api_key ≢ []
      → r.path ≢ healthz
      → new_handler api_key mux r s ≡ (
          if text_eq r.authorization (bearer ++ api_key)
          then mux r s
          else (json_error (codes "unauthorized") 401, s))
  unfolding new_handler bearer_auth
  new_handler-bearer r s key other =
      rw (off api_key [] key, off r.path healthz other)
        (token_test r.authorization (mux r s) (json_error (codes "unauthorized") 401, s))
