-- ===== src/Proxy/Tunnel/Bypass.antt =====
-- The host of the CONNECT request, which is dialled, against the Host header, which is looked up in the
-- blocklist.
use i_filter_imitation.Common.{
  ℕ, List, [], ◌∷◌, ◌++◌, append_assoc, append-nil, map, Bool, true, false, ◌||◌, Option, none,
  some, ◌==◌, if◌then◌else◌, Text, codes, has_prefix, ◌≡◌, ◌≢◌, refl, ap, ◌∙◌, sym, All, Bool-cases,
  inl, inr, Option-cases, option_intro,
}
use i_filter_imitation.Proxy.Blocklist.{Blocklist, is_blocked}
use i_filter_imitation.Proxy.Framing.{UpResponse}
use i_filter_imitation.Proxy.Tunnel.{
  Exchange, Loop, Round, host_or, respond, round, serve_conn_loop,
}
use i_filter_imitation.Proxy.Tunnel.Laws.{respond-forwarded}

-- The names under which requests were let through.
abbrev pub names : Loop → List Text
names l = map (λ (f : Text × Text). f.1) l.forwarded

-- A response after which the tunnel serves another request.
unfoldable pub stays_open : Exchange → UpResponse → Bool
stays_open x resp =
    if resp.status_code == 101
    then false
    else if has_prefix x.content_type (codes "text/event-stream")
    then false
    else if resp.close || x.close
    then false
    else true

unfoldable pub goes_on : Exchange → Bool
goes_on x = elim x.answer [ none ↦ false | some resp ↦ stays_open x resp ]

-- The Host headers up to the first that is blocked or closes the tunnel.
unfoldable pub let_through : List (Option Blocklist × Exchange) → List Text
let_through [] = []
let_through ((b, x) ∷ xs) =
    let rest = let_through xs in
    if is_blocked b x.host then [] else x.host ∷ (if goes_on x then rest else [])

map-snoc :
    (fs : List (Text × Text)) (f : Text × Text)
    → map (λ (g : Text × Text). g.1) (fs ++ f ∷ []) ≡ map (λ (g : Text × Text). g.1) fs ++ f.1 ∷ []
map-snoc [] f = refl
map-snoc (g ∷ fs) f = ap (◌∷◌ g.1) (map-snoc fs f)

host_or-named : (s host : Text) → s ≢ [] → host_or s host ≡ s
host_or-named [] host h = absurd (h refl)
host_or-named (c ∷ s) host h = refl

module _ (status_text : ℕ → Text) (blocked_page : Text → Text) (has_sender : Bool)
    (host : Text) where
  respond-stays_open :
      (x : Exchange) (resp : UpResponse) (l : Loop)
      → (respond status_text blocked_page has_sender host x resp l).1 ≡ stays_open x resp
  unfolding respond stays_open
  respond-stays_open x resp l = elim (Bool-cases (resp.status_code == 101)) [
    | inl e ↦ elim (Bool-cases x.bridges) [ inl f ↦ rw (e, f) refl | inr f ↦ rw (e, f) refl ]
    | inr e ↦ elim (Bool-cases (has_prefix x.content_type (codes "text/event-stream"))) [
      | inl f ↦ rw (e, f) refl
      | inr f ↦ rw (e, f) refl
    ]
  ]

  round_blocked :
      (b : Option Blocklist) (x : Exchange) (l : Loop)
      → x.host ≢ []
      → is_blocked b x.host ≡ true
      → (names (round status_text blocked_page has_sender b host x l).0 ≡ names l)
        × ((round status_text blocked_page has_sender b host x l).1 ≡ false)
  unfolding round
  round_blocked b x l named h = rw (host_or-named x.host host named, h) (refl, refl)

  sent_names :
      (x : Exchange) (l : Loop)
      → x.host ≢ []
      → map (λ (f : Text × Text). f.1) (l.forwarded ++ (host, host_or x.host host) ∷ [])
        ≡ names l ++ x.host ∷ []
  sent_names x l named =
      map-snoc l.forwarded (host, host_or x.host host)
      ∙ ap (λ n. names l ++ n ∷ []) (host_or-named x.host host named)

  round_free-names :
      (b : Option Blocklist) (x : Exchange) (l : Loop)
      → x.host ≢ []
      → is_blocked b x.host ≡ false
      → names (round status_text blocked_page has_sender b host x l).0 ≡ names l ++ x.host ∷ []
  unfolding round
  round_free-names b x l named h =
      rw (host_or-named x.host host named, h)
        (option_intro (λ (r : Round). names r.0 ≡ names l ++ x.host ∷ []) x.answer _ _
          (λ _. sent_names x l named)
          (λ resp _.
            ap (map (λ (f : Text × Text). f.1))
              (respond-forwarded status_text blocked_page has_sender host x resp _)
            ∙ sent_names x l named))

  round_free-goes_on :
      (b : Option Blocklist) (x : Exchange) (l : Loop)
      → x.host ≢ []
      → is_blocked b x.host ≡ false
      → (round status_text blocked_page has_sender b host x l).1 ≡ goes_on x
  unfolding round goes_on stays_open
  round_free-goes_on b x l named h =
      rw (host_or-named x.host host named, h)
        (elim (Option-cases x.answer) [
          | inl e ↦ rw e refl
          | inr (resp, e) ↦ rw e (respond-stays_open x resp _)
        ])

  -- If every request has a Host header, a tunnel lets the requests through up to the first whose Host
  -- header is blocked or whose answer closes the tunnel. The host of the CONNECT request, which is
  -- dialled for all of them, makes no difference, also where it is blocked itself.
  pub names-serve_conn_loop :
      (xs : List (Option Blocklist × Exchange)) (l : Loop)
      → All (λ (p : Option Blocklist × Exchange). p.1.host ≢ []) xs
      → names (serve_conn_loop status_text blocked_page has_sender host xs l)
        ≡ names l ++ let_through xs
  unfolding serve_conn_loop let_through
  names-serve_conn_loop [] l _ = sym (append-nil (names l))
  names-serve_conn_loop ((b, x) ∷ xs) l (named, all) =
      let r = round status_text blocked_page has_sender b host x l in
      let more = names-serve_conn_loop xs r.0 all in
      elim (Bool-cases (is_blocked b x.host)) [
        | inl h ↦
            rw (h, (round_blocked b x l named h).1)
              ((round_blocked b x l named h).0 ∙ sym (append-nil (names l)))
        | inr h ↦ elim (Bool-cases (goes_on x)) [
          | inl g ↦
              rw (h, round_free-goes_on b x l named h, g)
                (more
                  ∙ ap (λ ns. ns ++ let_through xs) (round_free-names b x l named h)
                  ∙ append_assoc (names l) (x.host ∷ []) (let_through xs))
          | inr g ↦ rw (h, round_free-goes_on b x l named h, g) (round_free-names b x l named h)
        ]
      ]
