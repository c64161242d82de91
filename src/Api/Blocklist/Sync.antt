-- ===== src/Api/Blocklist/Sync.antt =====
-- The Redis set, which the proxy reads, against the table.
use mathlib.Core.Bool.{false≢true}
use i_filter_imitation.Common.{
  List, [], ◌∷◌, Bool, true, false, ◌&&◌, if◌then◌else◌, Text, text_eq, ◌≡◌, refl, sym, ap, ◌∙◌,
  arith, All, if_intro, option_intro,
}
use i_filter_imitation.Api.Blocklist.{
  Entry, AuditEntry, UpdateRequest, Store, Services, Answer, lookup, is_enabled, sync_to_redis,
  set_member, tell, add, update, remove,
}
use i_filter_imitation.Api.Blocklist.Members.{
  updated_comment, enabled_set, enabled_deleted, enabled_added,
}

-- The set holds the domains of the enabled entries, and no other.
unfoldable pub Agrees : Store → Type 0
Agrees s = (d : Text) → s.redis d ≡ is_enabled d s.entries

-- One call on the store.
pub data Op : Type 0 where
  op_add : Text → Text → Text → Op
  op_update : Text → UpdateRequest → Op
  op_remove : Text → Text → Text → Op
  op_sync : Op

unfoldable pub step : Services → Op → Store → Answer × Store
step on (op_add domain comment actor) s = add on domain comment actor s
step on (op_update domain req) s = update on domain req s
step on (op_remove domain actor comment) s = remove on domain actor comment s
step on op_sync s = sync_to_redis on s

unfoldable pub run : List (Services × Op) → Store → Store
run [] s = s
run ((on, op) ∷ ops) s = run ops (step on op s).1

abbrev Keeps : Answer × Store → Type 0
Keeps r = Agrees r.1

at : (s : Store) → Agrees s → (d : Text) → s.redis d ≡ is_enabled d s.entries
unfolding Agrees
at s a = a

tell-Agrees :
    (on : Services) (domain : Text) (b : Bool) (message : Text) (s : Store)
    → on.redis ≡ true
    → ((d : Text) → (if text_eq d domain then b else s.redis d) ≡ is_enabled d s.entries)
    → Agrees (tell on domain b message s)
unfolding Agrees tell set_member
tell-Agrees on domain b message s up h =
    if_intro (λ (t : Store). (d : Text) → t.redis d ≡ is_enabled d t.entries) on.redis _ _ (λ _. h)
      (λ down. absurd (false≢true (sym down ∙ up)))

new_entries :
    (s : Store) (es : List Entry) (log : List AuditEntry)
    → ((d : Text) → s.redis d ≡ is_enabled d es)
    → Agrees (record s { entries = es; audit = log })
unfolding Agrees
new_entries s es log h = h

synced :
    (s : Store) (messages : List Text)
    → Agrees (record s { redis = λ d. is_enabled d s.entries; published = messages })
unfolding Agrees
synced s messages d = refl

pub add-Agrees :
    (on : Services) (domain comment actor : Text) (s : Store)
    → on.redis ≡ true
    → Agrees s
    → Agrees (add on domain comment actor s).1
unfolding add
add-Agrees on domain comment actor s up a =
    if_intro Keeps on.database _ _
      (λ _.
        option_intro Keeps (lookup domain s.entries) _ _
          (λ _. tell-Agrees on domain true _ _ up (λ d.
            ap (λ b. if text_eq d domain then true else b) (at s a d)
            ∙ enabled_added d s.entries _ refl))
          (λ _ _. a))
      (λ _. a)

pub update-Agrees :
    (on : Services) (domain : Text) (req : UpdateRequest) (s : Store)
    → on.redis ≡ true
    → Agrees s
    → Agrees (update on domain req s).1
unfolding update
update-Agrees on domain req s up a =
    if_intro Keeps on.database _ _
      (λ _.
        option_intro Keeps (lookup domain s.entries) _ _ (λ _. a)
          (λ e f.
            option_intro Agrees req.enabled _ _
              (λ h.
                new_entries s _ _ (λ d. at s a d ∙ sym (updated_comment d domain req s.entries h)))
              (λ b h. tell-Agrees on domain b _ _ up (λ d.
                ap (λ c. if text_eq d domain then b else c) (at s a d)
                ∙ enabled_set d domain b req s.entries e h f))))
      (λ _. a)

pub remove-Agrees :
    (on : Services) (domain actor comment : Text) (s : Store)
    → on.redis ≡ true
    → Agrees s
    → Agrees (remove on domain actor comment s).1
unfolding remove
remove-Agrees on domain actor comment s up a =
    if_intro Keeps on.database _ _
      (λ _.
        option_intro Keeps (lookup domain s.entries) _ _ (λ _. a)
          (λ _ _. tell-Agrees on domain false _ _ up (λ d.
            ap (λ b. if text_eq d domain then false else b) (at s a d)
            ∙ enabled_deleted d domain s.entries)))
      (λ _. a)

sync_to_redis-Agrees : (on : Services) (s : Store) → Agrees s → Agrees (sync_to_redis on s).1
unfolding sync_to_redis
sync_to_redis-Agrees on s a =
    if_intro Keeps (on.database && on.redis) _ _ (λ _. synced s _) (λ _. a)

step-Agrees :
    (on : Services) (op : Op) (s : Store) → on.redis ≡ true → Agrees s → Agrees (step on op s).1
unfolding step
step-Agrees on (op_add domain comment actor) s up a = add-Agrees on domain comment actor s up a
step-Agrees on (op_update domain req) s up a = update-Agrees on domain req s up a
step-Agrees on (op_remove domain actor comment) s up a =
    remove-Agrees on domain actor comment s up a
step-Agrees on op_sync s up a = sync_to_redis-Agrees on s a

-- While Redis answers, any sequence of calls, whether the database answers or not, keeps the Redis set
-- equal to the domains of the enabled entries.
pub run-Agrees :
    (ops : List (Services × Op)) (s : Store)
    → All (λ (p : Services × Op). p.0.redis ≡ true) ops
    → Agrees s
    → Agrees (run ops s)
unfolding run
run-Agrees [] s _ a = a
run-Agrees ((on, op) ∷ ops) s (up, ups) a =
    run-Agrees ops (step on op s).1 ups (step-Agrees on op s up a)

-- If both services answer, a sync makes the Redis set equal to the domains of the enabled entries,
-- whatever happened before.
pub run-sync_to_redis :
    (ops : List (Services × Op)) (s : Store) (on : Services)
    → on.database ≡ true
    → on.redis ≡ true
    → Agrees (sync_to_redis on (run ops s)).1
unfolding sync_to_redis
run-sync_to_redis ops s on db up =
    if_intro Keeps (on.database && on.redis) _ _ (λ _. synced (run ops s) _)
      (λ down. absurd (ground (arith, down, db, up)))
