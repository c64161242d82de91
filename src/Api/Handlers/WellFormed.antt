-- ===== src/Api/Handlers/WellFormed.antt =====
-- Entries of different domains of the right form, and that each operation of the store keeps them so.
use i_filter_imitation.Common.{
  List, [], ◌∷◌, ◌++◌, Bool, true, false, none, Text, text_eq, text_eq_swap, All, All-append, ◌≡◌,
  refl, sym, ◌∙◌, subst, arith, if_intro, option_intro,
}
use i_filter_imitation.Api.Domain.Grammar.{IsDomain}
use i_filter_imitation.Api.Blocklist.{
  Entry, UpdateRequest, Store, Services, Answer, lookup, tell, set_member, add, update,
  update_entries, remove, delete_entries, updated,
}

-- No two entries have one domain.
abbrev pub Unique : List Entry → Type 0
Unique [] = Unit
Unique (e ∷ es) = (lookup e.domain es ≡ none) × Unique es

abbrev pub Named : List Entry → Type 0
Named es = All (λ (e : Entry). IsDomain e.domain) es

-- Every entry is of a domain of the right form, and of another domain than the other entries.
pub record WellFormed (s : Store) : Type 0 where
  pub named : Named s.entries
  pub unique : Unique s.entries

lookup-append :
    (d : Text) (es : List Entry) (e : Entry)
    → lookup d es ≡ none
    → text_eq d e.domain ≡ false
    → lookup d (es ++ e ∷ []) ≡ none
unfolding lookup
lookup-append d [] e h n = rw n refl
lookup-append d (x ∷ es) e h n = ground (arith, lookup-append d es e, h, n)

lookup-head :
    (d : Text) (x : Entry) (es : List Entry) → lookup d (x ∷ es) ≡ none → text_eq d x.domain ≡ false
unfolding lookup
lookup-head d x es h = ground (arith, h)

lookup-tail :
    (d : Text) (x : Entry) (es : List Entry) → lookup d (x ∷ es) ≡ none → lookup d es ≡ none
unfolding lookup
lookup-tail d x es h = ground (arith, h)

Unique-append :
    (es : List Entry) (e : Entry) → Unique es → lookup e.domain es ≡ none → Unique (es ++ e ∷ [])
Unique-append [] e u h = (unfold lookup in refl, tt)
Unique-append (x ∷ es) e (n, u) h = (
  lookup-append x.domain es e n (text_eq_swap x.domain e.domain ∙ lookup-head e.domain x es h),
  Unique-append es e u (lookup-tail e.domain x es h),
)

lookup_cons :
    (d : Text) (x : Entry) (es : List Entry)
    → text_eq d x.domain ≡ false
    → lookup d es ≡ none
    → lookup d (x ∷ es) ≡ none
unfolding lookup
lookup_cons d x es n h = rw n h

lookup-update_entries :
    (d domain : Text) (req : UpdateRequest) (es : List Entry)
    → lookup d es ≡ none
    → lookup d (update_entries domain req es) ≡ none
unfolding lookup update_entries
lookup-update_entries d domain req [] h = refl
lookup-update_entries d domain req (e ∷ es) h =
    let n = lookup-head d e es h in
    let rest = lookup-update_entries d domain req es (lookup-tail d e es h) in
    if_intro (λ x. lookup d (x ∷ update_entries domain req es) ≡ none) (text_eq domain e.domain) _ _
      (λ _. lookup_cons d (updated req e) _ n rest) (λ _. lookup_cons d e _ n rest)

lookup-delete_entries :
    (d domain : Text) (es : List Entry)
    → lookup d es ≡ none
    → lookup d (delete_entries domain es) ≡ none
unfolding lookup delete_entries
lookup-delete_entries d domain [] h = refl
lookup-delete_entries d domain (e ∷ es) h =
    let rest = lookup-delete_entries d domain es (lookup-tail d e es h) in
    if_intro (λ xs. lookup d xs ≡ none) (text_eq domain e.domain) _ _ (λ _. rest)
      (λ _. lookup_cons d e _ (lookup-head d e es h) rest)

update_entries-WellFormed :
    (domain : Text) (req : UpdateRequest) (es : List Entry)
    → Named es
    → Unique es
    → Named (update_entries domain req es) × Unique (update_entries domain req es)
unfolding update_entries
update_entries-WellFormed domain req [] m u = (tt, tt)
update_entries-WellFormed domain req (e ∷ es) (i, m) (n, u) =
    let (ms, us) = update_entries-WellFormed domain req es m u in
    let free = lookup-update_entries e.domain domain req es n in
    let rest = update_entries domain req es in
    if_intro (λ x. Named (x ∷ rest) × Unique (x ∷ rest)) (text_eq domain e.domain) _ _
      (λ _. ((i, ms), (free, us))) (λ _. ((i, ms), (free, us)))

delete_entries-WellFormed :
    (domain : Text) (es : List Entry)
    → Named es
    → Unique es
    → Named (delete_entries domain es) × Unique (delete_entries domain es)
unfolding delete_entries
delete_entries-WellFormed domain [] m u = (tt, tt)
delete_entries-WellFormed domain (e ∷ es) (i, m) (n, u) =
    let (ms, us) = delete_entries-WellFormed domain es m u in
    if_intro (λ xs. Named xs × Unique xs) (text_eq domain e.domain) _ _ (λ _. (ms, us))
      (λ _. ((i, ms), (lookup-delete_entries e.domain domain es n, us)))

-- The table with these entries, and anything else in the store.
with_entries : (es : List Entry) (t : Store) → t.entries ≡ es → Named es × Unique es → WellFormed t
with_entries es t e (m, u) = record {
  named = subst Named (sym e) m;
  unique = subst Unique (sym e) u;
}

pub tell-entries :
    (on : Services) (d : Text) (b : Bool) (message : Text) (s : Store)
    → (tell on d b message s).entries ≡ s.entries
unfolding tell set_member
tell-entries on d b message s =
    if_intro (λ (t : Store). t.entries ≡ s.entries) on.redis _ _ (λ _. refl) (λ _. refl)

abbrev Keeps : Answer × Store → Type 0
Keeps r = WellFormed r.1

pub add-WellFormed :
    (on : Services) (d comment actor : Text) (s : Store)
    → IsDomain d
    → WellFormed s
    → WellFormed (add on d comment actor s).1
unfolding add
add-WellFormed on d comment actor s i w =
    if_intro Keeps on.database _ _
      (λ _.
        option_intro Keeps (lookup d s.entries) _ _
          (λ free.
            with_entries (s.entries ++ _ ∷ []) _ (tell-entries on d true _ _)
              (All-append _ s.entries _ w.named (i, tt), Unique-append s.entries _ w.unique free))
          (λ _ _. w))
      (λ _. w)

pub update-WellFormed :
    (on : Services) (d : Text) (req : UpdateRequest) (s : Store)
    → WellFormed s
    → WellFormed (update on d req s).1
unfolding update
update-WellFormed on d req s w =
    let kept = update_entries-WellFormed d req s.entries w.named w.unique in
    if_intro Keeps on.database _ _
      (λ _.
        option_intro Keeps (lookup d s.entries) _ _ (λ _. w)
          (λ e _.
            option_intro WellFormed req.enabled _ _ (λ _. with_entries _ _ refl kept)
              (λ b _. with_entries _ _ (tell-entries on d b _ _) kept)))
      (λ _. w)

pub remove-WellFormed :
    (on : Services) (d actor comment : Text) (s : Store)
    → WellFormed s
    → WellFormed (remove on d actor comment s).1
unfolding remove
remove-WellFormed on d actor comment s w =
    if_intro Keeps on.database _ _
      (λ _.
        option_intro Keeps (lookup d s.entries) _ _ (λ _. w)
          (λ _ _.
            with_entries _ _ (tell-entries on d false _ _)
              (delete_entries-WellFormed d s.entries w.named w.unique)))
      (λ _. w)
