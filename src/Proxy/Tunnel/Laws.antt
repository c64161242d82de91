-- ===== src/Proxy/Tunnel/Laws.antt =====
-- What gets through a tunnel, and what is logged.
use i_filter_imitation.Common.{
  ℕ, ◌+◌, List, [], ◌∷◌, ◌++◌, length, map, Bool, true, false, Option, ◌==◌, if◌then◌else◌, Text,
  codes, has_prefix, ◌≡◌, refl, sym, All, if_intro, option_intro, subst,
}
use i_filter_imitation.Proxy.Blocklist.{Blocklist, is_blocked}
use i_filter_imitation.Proxy.Framing.{UpResponse}
use i_filter_imitation.Proxy.Tunnel.{
  Exchange, LogRecord, Loop, Round, host_or, respond, round, serve_conn_loop, new_loop,
}

All-append {ℓ κ} :
    {A : Type ℓ} (P : A → Type κ) (xs : List A) (y : A) → All P xs → P y → All P (xs ++ y ∷ [])
All-append P [] y ps p = (p, tt)
All-append P (x ∷ xs) y (px, ps) p = (px, All-append P xs y ps p)

-- The number of block events of a log.
abbrev pub blocks : List LogRecord → ℕ
blocks [] = 0
blocks (r ∷ rs) = (if r.is_block then 1 else 0) + blocks rs

module _ (status_text : ℕ → Text) (blocked_page : Text → Text) (has_sender : Bool)
    (host : Text) where
  -- What each round keeps, the whole loop keeps.
  loop_intro :
      (P : Loop → Type 0) (C : Option Blocklist × Exchange → Type 0)
      → ((b : Option Blocklist) (x : Exchange) (l : Loop)
          → C (b, x)
          → P l
          → P (round status_text blocked_page has_sender b host x l).0)
      → (xs : List (Option Blocklist × Exchange)) (l : Loop) → All C xs
      → P l
      → P (serve_conn_loop status_text blocked_page has_sender host xs l)
  unfolding serve_conn_loop
  loop_intro P C keeps [] l _ p = p
  loop_intro P C keeps ((b, x) ∷ xs) l (c, cs) p =
      if_intro P (round status_text blocked_page has_sender b host x l).1 _ _
        (λ _. loop_intro P C keeps xs _ cs (keeps b x l c p)) (λ _. keeps b x l c p)

  pub respond-forwarded :
      (x : Exchange) (resp : UpResponse) (l : Loop)
      → (respond status_text blocked_page has_sender host x resp l).0.forwarded ≡ l.forwarded
  unfolding respond
  respond-forwarded x resp l =
      if_intro (λ (r : Round). r.0.forwarded ≡ l.forwarded) (resp.status_code == 101) _ _
        (λ _.
          if_intro (λ (r : Round). r.0.forwarded ≡ l.forwarded) x.bridges _ _ (λ _. refl)
            (λ _. refl))
        (λ _.
          if_intro (λ (r : Round). r.0.forwarded ≡ l.forwarded)
            (has_prefix x.content_type (codes "text/event-stream")) _ _ (λ _. refl) (λ _. refl))

  -- A request that was let through dials the host of the tunnel, under a name that is not blocked.
  abbrev pub LetThrough : Option Blocklist → Loop → Type 0
  LetThrough b l = All (λ (f : Text × Text). (f.0 ≡ host) × (is_blocked b f.1 ≡ false)) l.forwarded

  round-LetThrough :
      (b : Option Blocklist) (x : Exchange) (l : Loop)
      → LetThrough b l
      → LetThrough b (round status_text blocked_page has_sender b host x l).0
  unfolding round
  round-LetThrough b x l p =
      let name = host_or x.host host in
      if_intro (λ (r : Round). LetThrough b r.0) (is_blocked b name) _ _ (λ _. p)
        (λ free.
          let added = All-append _ l.forwarded (host, name) p (refl, free) in
          option_intro (λ (r : Round). LetThrough b r.0) x.answer _ _ (λ _. added)
            (λ resp _.
              subst (All (λ (f : Text × Text). (f.0 ≡ host) × (is_blocked b f.1 ≡ false)))
                (sym (respond-forwarded x resp _)) added))

  -- While the blocklist stays the same, every request that a tunnel gives to the transport dials the host
  -- of the tunnel, and its Host header, or that host where it has none, is not blocked.
  pub serve_conn_loop-LetThrough :
      (b : Option Blocklist) (xs : List Exchange)
      → LetThrough b
          (serve_conn_loop status_text blocked_page has_sender host (map (λ x. (b, x)) xs) new_loop)
  serve_conn_loop-LetThrough b xs =
      loop_intro (LetThrough b) (λ p. p.0 ≡ b)
        (λ b' x l e p.
          subst (λ c. LetThrough b (round status_text blocked_page has_sender c host x l).0) (sym e)
            (round-LetThrough b x l p))
        (map (λ x. (b, x)) xs) new_loop (same xs) tt
    where
      same :
          (xs : List Exchange)
          → All (λ (p : Option Blocklist × Exchange). p.0 ≡ b) (map (λ x. (b, x)) xs)
      same [] = tt
      same (x ∷ xs) = (refl, same xs)

-- With a log server, one record for each request given to the transport and for each block; without
-- one, none.
abbrev pub Accounts : Bool → Loop → Type 0
Accounts true l = length l.log ≡ length l.forwarded + blocks l.log
Accounts false l = l.log ≡ []

-- One record is sent, `n` block events among it, or there is no log server.
abbrev Sends : Bool → ℕ → List LogRecord → List LogRecord → Type 0
Sends true n old new = (length new ≡ length old + 1) × (blocks new ≡ blocks old + n)
Sends false n old new = new ≡ old

abbrev record_at : Text → ℕ → Bool → LogRecord
record_at host status is_block = record { host = host; status_code = status; is_block = is_block }
