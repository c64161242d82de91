-- ===== src/Api/Blocklist.antt =====
-- internal/api/blocklist.go: the blocklist of the management API. The PostgreSQL tables are lists of
-- rows, the Redis set is its membership, and what is published is a list of messages. The numbers and
-- the times that the database fills in are left out, and so are the list queries. Whether the database
-- and Redis answer is an input of each call; a transaction that fails changes nothing.
mod Members
pub mod Sync
mod Tests
use i_filter_imitation.Common.{
  List, [], ◌∷◌, ◌++◌, Bool, true, false, ◌&&◌, ◌||◌, not, Option, none, some, if◌then◌else◌, Text,
  codes, text_eq,
}

pub record Entry : Type 0 where
  pub domain : Text
  pub enabled : Bool
  pub comment : Text
  pub created_by : Text
  pub updated_by : Text

pub record AuditEntry : Type 0 where
  pub domain : Text
  pub action : Text
  pub actor : Text
  pub comment : Text

pub record UpdateRequest : Type 0 where
  pub enabled : Option Bool
  pub comment : Option Text
  pub actor : Text

pub record Store : Type 0 where
  pub entries : List Entry
  pub audit : List AuditEntry
  pub redis : Text → Bool
  pub published : List Text

pub record Services : Type 0 where
  pub database : Bool
  pub redis : Bool

pub data Answer : Type 0 where
  done : Answer
  entry : Entry → Answer
  duplicate not_found internal : Answer

-- an entry of the domain
unfoldable pub lookup : Text → List Entry → Option Entry
unfolding text_eq
lookup d [] = none
lookup d (e ∷ es) = let rest = lookup d es in if text_eq d e.domain then some e else rest

-- SELECT domain … WHERE enabled, as the set of its rows
unfoldable pub is_enabled : Text → List Entry → Bool
unfolding text_eq
is_enabled d [] = false
is_enabled d (e ∷ es) = text_eq d e.domain && e.enabled || is_enabled d es

unfoldable pub sync_to_redis : Services → Store → Answer × Store
sync_to_redis on s =
    if on.database && on.redis
    then (
      done,
      record s {
        redis = λ d. is_enabled d s.entries;
        published = s.published ++ codes "sync" ∷ [];
      },
    )
    else (internal, s)

-- SADD or SREM of the domain, and the message
unfoldable pub set_member : Text → Bool → Text → Store → Store
unfolding text_eq
set_member domain present message s = record s {
  redis = λ d. if text_eq d domain then present else s.redis d;
  published = s.published ++ message ∷ [];
}

-- the Redis pipeline behind a committed transaction; its failure is only logged
unfoldable pub tell : Services → Text → Bool → Text → Store → Store
unfolding set_member
tell on domain present message s = if on.redis then set_member domain present message s else s

unfoldable pub add : Services → Text → Text → Text → Store → Answer × Store
add on domain comment actor s =
    let e : Entry = record {
      domain = domain;
      enabled = true;
      comment = comment;
      created_by = actor;
      updated_by = actor;
    } in
    let a : AuditEntry = record {
      domain = domain;
      action = codes "add";
      actor = actor;
      comment = comment;
    } in
    if on.database
    then elim (lookup domain s.entries) [
      | some _ ↦ (duplicate, s)
      | none ↦ (
        entry e,
        tell on domain true (codes "add:" ++ domain)
            (record s { entries = s.entries ++ e ∷ []; audit = s.audit ++ a ∷ [] }),
      )
    ]
    else (internal, s)

abbrev pub coalesce {ℓ} : {A : Type ℓ} → Option A → A → A
coalesce none a = a
coalesce (some b) a = b

-- the SET clause of the UPDATE
abbrev pub updated : UpdateRequest → Entry → Entry
updated req e = record e {
  enabled = coalesce req.enabled e.enabled;
  comment = coalesce req.comment e.comment;
  updated_by = req.actor;
}

unfoldable pub update_entries : Text → UpdateRequest → List Entry → List Entry
unfolding text_eq
update_entries d req [] = []
update_entries d req (e ∷ es) =
    (if text_eq d e.domain then updated req e else e) ∷ update_entries d req es

abbrev pub action_of : Option Bool → Text
action_of none = codes "update"
action_of (some true) = codes "enable"
action_of (some false) = codes "disable"

unfoldable pub update : Services → Text → UpdateRequest → Store → Answer × Store
unfolding update_entries
update on domain req s =
    let a : AuditEntry = record {
      domain = domain;
      action = action_of req.enabled;
      actor = req.actor;
      comment = coalesce req.comment [];
    } in
    let s' : Store = record s {
      entries = update_entries domain req s.entries;
      audit = s.audit ++ a ∷ [];
    } in
    if on.database
    then elim (lookup domain s.entries) [
      | none ↦ (not_found, s)
      | some e ↦ (
        entry (updated req e),
        elim req.enabled [
          | none ↦ s'
          | some b ↦ tell on domain b (action_of (some b) ++ b':' ∷ domain) s'
        ],
      )
    ]
    else (internal, s)

unfoldable pub delete_entries : Text → List Entry → List Entry
unfolding text_eq
delete_entries d [] = []
delete_entries d (e ∷ es) =
    let rest = delete_entries d es in if text_eq d e.domain then rest else e ∷ rest

unfoldable pub remove : Services → Text → Text → Text → Store → Answer × Store
unfolding delete_entries
remove on domain actor comment s =
    let a : AuditEntry = record {
      domain = domain;
      action = codes "remove";
      actor = actor;
      comment = comment;
    } in
    if on.database
    then elim (lookup domain s.entries) [
      | none ↦ (not_found, s)
      | some _ ↦ (
        done,
        tell on domain false (codes "remove:" ++ domain)
            (record s { entries = delete_entries domain s.entries; audit = s.audit ++ a ∷ [] }),
      )
    ]
    else (internal, s)
