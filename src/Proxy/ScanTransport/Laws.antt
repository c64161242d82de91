-- ===== src/Proxy/ScanTransport/Laws.antt =====
-- Which responses pass the scanner by, and what a cached infection leads to.
use mathlib.Core.Bool.{false≢true}
use i_filter_imitation.Common.{
  Bool, true, false, Option, none, some, if◌then◌else◌, Text, codes, text_eq_refl, ◌≡◌, ◌⊎◌, inl,
  inr, ◌↔◌, refl, sym, ◌∙◌, arith, subst, if_intro,
}
use i_filter_imitation.Scan.Status.{pending, scanning, clean, infected, error, too_large, Verdict}
use i_filter_imitation.Scan.Config.{is_scannable}
use i_filter_imitation.Scan.Manager.{
  Request, Response, Manager, lookup_url, new_preset_job, store_job, job_for, get_job, serve_file,
  is_servable,
}
use i_filter_imitation.Scan.Endpoint.{
  forbidden, json, status_text, status_resp, handle_status, handle_download,
}
use i_filter_imitation.Proxy.ScanTransport.{
  Outcome, passed_through, redirected, TripEnv, exceeds, is_browser_request, scan_redirect_response,
  handle_browser, handle_cli, handle_scan, handle_cached, round_trip,
}

-- The client is given the upstream response as it is.
abbrev pub passes : Outcome → Bool
passes (passed_through resp) = true
passes _ = false

-- The cache calls the URL clean.
abbrev pub CachedClean : Option Verdict → Type 0
CachedClean v = (threat : Text) × (v ≡ some (clean, threat))

handle_scan-passes :
    (env : TripEnv) (req : Request) (resp : Response) (m : Manager)
    → passes (handle_scan env req resp m).0 ≡ false
unfolding handle_scan handle_browser handle_cli
handle_scan-passes env req resp m =
    if_intro (λ (r : Outcome × Manager). passes r.0 ≡ false) (is_browser_request req) _ _
      (λ _. refl) (λ _. refl)

handle_cached-passes :
    (env : TripEnv) (req : Request) (resp : Response) (v : Option Verdict) (m : Manager)
    → (passes (handle_cached env req resp v m).0 ≡ true) ↔ CachedClean v
unfolding handle_cached
handle_cached-passes env req resp none m = (
  λ h. absurd (false≢true (sym (handle_scan-passes env req resp m) ∙ h)),
  λ c. ground (arith, c.1),
)
handle_cached-passes env req resp (some (clean, threat)) m = (λ _. (threat, refl), λ _. refl)
handle_cached-passes env req resp (some (infected, threat)) m =
    (λ h. absurd (false≢true h), λ c. ground (arith, c.1))
handle_cached-passes env req resp (some (pending, threat)) m = (
  λ h. absurd (false≢true (sym (handle_scan-passes env req resp m) ∙ h)),
  λ c. ground (arith, c.1),
)
handle_cached-passes env req resp (some (scanning, threat)) m = (
  λ h. absurd (false≢true (sym (handle_scan-passes env req resp m) ∙ h)),
  λ c. ground (arith, c.1),
)
handle_cached-passes env req resp (some (error, threat)) m = (
  λ h. absurd (false≢true (sym (handle_scan-passes env req resp m) ∙ h)),
  λ c. ground (arith, c.1),
)
handle_cached-passes env req resp (some (too_large, threat)) m = (
  λ h. absurd (false≢true (sym (handle_scan-passes env req resp m) ∙ h)),
  λ c. ground (arith, c.1),
)

three_ways :
    (a b : Bool) (resp : Response) (m : Manager) (o : Outcome × Manager) (C : Type 0)
    → (passes o.0 ≡ true) ↔ C
    → (passes (if a then if b then (passed_through resp, m) else o else (passed_through resp, m)).0
        ≡ true)
      ↔ ((a ≡ false) ⊎ (b ≡ true) ⊎ C)
three_ways true true resp m o C e = (λ _. inr (inl refl), λ _. refl)
three_ways true false resp m o C e = (λ h. inr (inr (e.0 h)), back)
  where
    back : (true ≡ false) ⊎ (false ≡ true) ⊎ C → passes o.0 ≡ true
    back (inl x) = absurd (false≢true (sym x))
    back (inr (inl x)) = absurd (false≢true x)
    back (inr (inr c)) = e.1 c
three_ways false b resp m o C e = (λ _. inl refl, λ _. refl)

-- A response passes the scanner by exactly when its type is not to be scanned, the test `exceeds` of its
-- length holds, or the cache calls its URL clean. Api/ScanConfig/Limit says what the test means.
pub round_trip_iff :
    (sha256 : Text → Text) (env : TripEnv) (req : Request) (resp : Response) (m : Manager)
    → (passes (round_trip sha256 env req (some resp) m).0 ≡ true) ↔ (
        (is_scannable m.config resp.content_type ≡ false)
        ⊎ (exceeds resp.content_length m.max_size ≡ true)
        ⊎ CachedClean (lookup_url sha256 env.now env.url_reply req.url m).0)
unfolding round_trip
round_trip_iff sha256 env req resp m =
    let asked = lookup_url sha256 env.now env.url_reply req.url m in
    three_ways (is_scannable m.config resp.content_type) (exceeds resp.content_length m.max_size)
      resp m _ (CachedClean asked.0) (handle_cached-passes env req resp asked.0 asked.1)

-- The client of an infected preset job: the redirect, the status, the refusal.
abbrev Infected : Text → Text → Bool → Outcome × Manager → Type 0
Infected id threat opens r =
    (r.0 ≡ redirected (scan_redirect_response id) none)
    × (handle_status id r.1 ≡ json (record { status = codes "infected"; threat = threat }))
    × (handle_download opens id r.1 ≡ forbidden)

handle_cached-infected :
    (env : TripEnv) (req : Request) (resp : Response) (m : Manager) (threat : Text) (opens : Bool)
    → Infected env.id threat opens (handle_cached env req resp (some (infected, threat)) m)
unfolding handle_cached new_preset_job store_job job_for handle_status handle_download get_job
    serve_file is_servable status_resp status_text
handle_cached-infected env req resp m threat opens = (
  refl,
  rw (text_eq_refl env.id, handle_status) refl,
  rw (text_eq_refl env.id, handle_download) refl,
)

-- Where a response is to be scanned and the cache calls its URL infected, the client is sent to a page
-- whose status is the cached threat, and the download behind it is refused.
pub round_trip-infected :
    (sha256 : Text → Text) (env : TripEnv) (req : Request) (resp : Response) (m : Manager)
    (threat : Text) (opens : Bool)
    → is_scannable m.config resp.content_type ≡ true
    → exceeds resp.content_length m.max_size ≡ false
    → (lookup_url sha256 env.now env.url_reply req.url m).0 ≡ some (infected, threat)
    → let r = round_trip sha256 env req (some resp) m in
      (r.0 ≡ redirected (scan_redirect_response env.id) none)
      × (handle_status env.id r.1 ≡ json (record { status = codes "infected"; threat = threat }))
      × (handle_download opens env.id r.1 ≡ forbidden)
unfolding round_trip
round_trip-infected sha256 env req resp m threat opens ok small e =
    let asked = lookup_url sha256 env.now env.url_reply req.url m in
    subst (Infected env.id threat opens) (sym taken)
      (handle_cached-infected env req resp asked.1 threat opens)
  where
    taken :
        round_trip sha256 env req (some resp) m
        ≡ handle_cached env req resp
            (some (infected, threat))
            (lookup_url sha256 env.now env.url_reply req.url m).1
    taken = rw (ok, small, e, round_trip) refl
