-- ===== src/Proxy/Sync/Blocked.antt =====
-- The calls of internal/api/blocklist.go, the Redis set, the reload of internal/proxy/blocklist_sync.go
-- and the test of internal/proxy/blocklist.go, put together.
use mathlib.Core.Bool.{false≢true}
use i_filter_imitation.Common.{
  List, [], ◌∷◌, Bool, true, ◌&&◌, ◌||◌, Option, some, Text, text_eq, text_eq→eq, text_eq_refl,
  to_lower, trim_space, All, Any, Any-last, ◌≡◌, ◌↔◌, inl, inr, refl, sym, ap, ◌∙◌, subst, arith,
  Bool-cases,
}
use i_filter_imitation.Api.Blocklist.{Store, Services, Entry, is_enabled}
use i_filter_imitation.Api.Blocklist.Sync.{Agrees}
use i_filter_imitation.Api.Domain.Grammar.{IsDomain, is_valid_domain_iff}
use i_filter_imitation.Api.Domain.Normal.{to_lower-trim_space}
use i_filter_imitation.Api.Handlers.{AddBody, Call, normal, handle_add, handle, post}
use i_filter_imitation.Api.Handlers.WellFormed.{WellFormed}
use i_filter_imitation.Api.Handlers.Invariant.{
  serve, serve-Agrees, serve-WellFormed, handle-Agrees, handle-WellFormed, handle_add-entries,
  new_entry,
}
use i_filter_imitation.Api.Response.{Response}
use i_filter_imitation.Proxy.Blocklist.{Blocklist, new_blocklist, mem, host_name, is_blocked}
use i_filter_imitation.Proxy.Blocklist.Covers.{Covers, is_blocked_iff}
use i_filter_imitation.Proxy.Sync.{Syncer, on_message, load_blocklist}

-- SMEMBERS replies with the members of the set, in any order and any number of times.
unfoldable pub Members : (Text → Bool) → List Text → Type 0
Members redis ms = (d : Text) → mem d ms ≡ redis d

-- An enabled entry of the table is the name, or is `*.` and a domain that the name lies below.
abbrev pub Blocking : Text → Entry → Type 0
Blocking h e = (e.enabled ≡ true) × Covers e.domain h

-- An enabled entry, in lower case and trimmed, covers the name.
abbrev CoveredBy : Text → Entry → Type 0
CoveredBy h e = (e.enabled ≡ true) × Covers (to_lower (trim_space e.domain)) h

module _ (h : Text) where
  abbrev Line : Text → Type 0
  Line d = Covers (to_lower (trim_space d)) h

  Any-mem : (ms : List Text) → Any Line ms → (d : Text) × (mem d ms ≡ true) × Line d
  unfolding mem
  Any-mem [] a = absurd a
  Any-mem (m ∷ ms) (inl p) = (m, ap (λ b. b || mem m ms) (text_eq_refl m), p)
  Any-mem (m ∷ ms) (inr a) = let (d, i, p) = Any-mem ms a in (d, ground (arith, i), p)

  mem-Any : (d : Text) (ms : List Text) → mem d ms ≡ true → Line d → Any Line ms
  unfolding mem
  mem-Any d [] i p = absurd (false≢true i)
  mem-Any d (m ∷ ms) i p = elim (Bool-cases (text_eq m d)) [
    | inl e ↦ inl (subst Line (sym (text_eq→eq m d e)) p)
    | inr e ↦ inr (mem-Any d ms (ground (arith, i, e)) p)
  ]

  Any-is_enabled :
      (es : List Entry) → Any (CoveredBy h) es → (d : Text) × (is_enabled d es ≡ true) × Line d
  unfolding is_enabled
  Any-is_enabled [] a = absurd a
  Any-is_enabled (e ∷ es) (inl (on, p)) = (e.domain, rw (text_eq_refl e.domain, on) refl, p)
  Any-is_enabled (e ∷ es) (inr a) = let (d, i, p) = Any-is_enabled es a in (d, ground (arith, i), p)

  is_enabled-Any :
      (d : Text) (es : List Entry) → is_enabled d es ≡ true → Line d → Any (CoveredBy h) es
  unfolding is_enabled
  is_enabled-Any d [] i p = absurd (false≢true i)
  is_enabled-Any d (e ∷ es) i p = elim (Bool-cases (text_eq d e.domain && e.enabled)) [
    | inl q ↦ inl (ground (arith, q), subst Line (text_eq→eq d e.domain (ground (arith, q))) p)
    | inr q ↦ inr (is_enabled-Any d es (ground (arith, i, q)) p)
  ]

  -- Entries of the right form are read as they are.
  enabled_line : (e : Entry) → IsDomain e.domain → to_lower (trim_space e.domain) ≡ e.domain
  enabled_line e i = to_lower-trim_space e.domain ((is_valid_domain_iff e.domain).1 i)

  Any-Blocking :
      (es : List Entry)
      → All (λ (e : Entry). IsDomain e.domain) es
      → Any (CoveredBy h) es ↔ Any (Blocking h) es
  Any-Blocking [] _ = (λ a. a, λ a. a)
  Any-Blocking (e ∷ es) (i, named) =
      let rest = Any-Blocking es named in
      let p = enabled_line e i in
      (
        λ a. elim a [
          | inl (on, c) ↦ inl (on, subst (λ d. Covers d h) p c)
          | inr b ↦ inr (rest.0 b)
        ],
        λ a. elim a [
          | inl (on, c) ↦ inl (on, subst (λ d. Covers d h) (sym p) c)
          | inr b ↦ inr (rest.1 b)
        ],
      )

-- A reload that gets the members of the Redis set of a store that agrees with its table.
reload_iff :
    (s : Store) (ms : List Text) (t : Syncer (Option Blocklist)) (host : Text)
    → Agrees s
    → WellFormed s
    → Members s.redis ms
    → (is_blocked (on_message load_blocklist (some ms) t).state host ≡ true)
      ↔ Any (Blocking (host_name host)) s.entries
unfolding on_message load_blocklist Members Agrees
reload_iff s ms t host a w members = (
  λ b.
      let (d, i, p) = Any-mem h ms (blocked.0 b) in
      entries.0 (is_enabled-Any h d s.entries (sym (same d) ∙ i) p),
  λ c.
      let (d, i, p) = Any-is_enabled h s.entries (entries.1 c) in
      blocked.1 (mem-Any h d ms (same d ∙ i) p),
)
  where
    h : Text
    h = host_name host

    blocked : (is_blocked (some (new_blocklist ms)) host ≡ true) ↔ Any (Line h) ms
    blocked = is_blocked_iff ms host

    entries : Any (CoveredBy h) s.entries ↔ Any (Blocking h) s.entries
    entries = Any-Blocking h s.entries w.named

    same : (d : Text) → mem d ms ≡ is_enabled d s.entries
    same d = members d ∙ a d

-- While Redis answers, after any requests to the management API and one message to the proxy, whose
-- reload gets the members of the Redis set, a host is blocked if and only if an enabled entry of the
-- table is its name, or is `*.` and a domain that its name lies strictly below. The store began with a
-- table of different domains of the right form and a Redis set that agreed with it.
pub on_message-serve_iff :
    (calls : List (Services × Call)) (s : Store) (ms : List Text) (t : Syncer (Option Blocklist))
    (host : Text)
    → All (λ (p : Services × Call). p.0.redis ≡ true) calls
    → Agrees s
    → WellFormed s
    → Members (serve calls s).redis ms
    → (is_blocked (on_message load_blocklist (some ms) t).state host ≡ true)
      ↔ Any (Blocking (host_name host)) (serve calls s).entries
on_message-serve_iff calls s ms t host up a w members =
    reload_iff (serve calls s) ms t host (serve-Agrees calls s up a) (serve-WellFormed calls s w)
      members

-- If Redis answers and a POST is answered with 201, then after the next message, whose reload gets the
-- members of the Redis set, every host is blocked whose name is the posted domain, in lower case and
-- trimmed, or lies below it if it is a wildcard.
pub on_message-handle_add :
    (on : Services) (b : AddBody) (s : Store) (ms : List Text) (t : Syncer (Option Blocklist))
    (host : Text)
    → on.redis ≡ true
    → Agrees s
    → WellFormed s
    → (handle_add on (some b) s).0.status ≡ 201
    → Members (handle_add on (some b) s).1.redis ms
    → Covers (normal b.domain) (host_name host)
    → is_blocked (on_message load_blocklist (some ms) t).state host ≡ true
unfolding handle
on_message-handle_add on b s ms t host up a w created members c =
    (reload_iff r.1 ms t host (handle-Agrees on (post (some b)) s up a)
        (handle-WellFormed on (post (some b)) s w) members).1
      (subst (Any (Blocking (host_name host))) (sym (handle_add-entries on b s created))
        (Any-last (Blocking (host_name host)) s.entries (new_entry b) (refl, c)))
  where
    r : Response Entry × Store
    r = handle_add on (some b) s
