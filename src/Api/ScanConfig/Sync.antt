-- ===== src/Api/ScanConfig/Sync.antt =====
-- The value in Redis against the tables.
use i_filter_imitation.Common.{
  ℕ, ◌+◌, ◌≤◌, ◌<◌, [], Bool, ◌||◌, Option, none, some, Text, text_eq, trim_space, ◌≡◌, refl, ap,
  ◌∙◌, arith, if_intro, option_intro,
}
use i_filter_imitation.Scan.Config.{ScanConfig}
use i_filter_imitation.Api.Response.{Response}
use i_filter_imitation.Api.ScanConfig.{
  MimeType, ScanStore, Statements, Answer, saved, saved_mime, failed, config_of, build_scan_config,
  sync_scan_config_to_redis, update_scan_setting, update_mime_type, after_sync, has_setting,
  set_setting, find_mime, changed_mime, set_mime,
}
use i_filter_imitation.Api.ScanConfig.Handlers.{
  MimeBody, ScanCall, patch_setting, patch_mime, setting_response, mime_response, no_change,
  handle_patch_scan_setting, mime_body, handle_patch_mime_type, handle_scan,
}

-- A request that succeeded left in Redis what the tables stand for; one that was refused changed
-- nothing; one that failed left Redis as it was.
pub data ScanOutcome (s : ScanStore) (r : Response MimeType × ScanStore) : Type 0 where
  stored : r.0.status < 300 → r.1.config ≡ some (config_of r.1) → ScanOutcome s r
  refused : 400 ≤ r.0.status → r.0.status < 500 → r.1 ≡ s → ScanOutcome s r
  broken : r.0.status ≡ 500 → r.1.config ≡ s.config → ScanOutcome s r

built :
    (on : Statements) (t : ScanStore) (cfg : ScanConfig)
    → build_scan_config on t ≡ some cfg
    → some cfg ≡ some (config_of t)
unfolding build_scan_config
built on t cfg e = ground (arith, e)

-- The configuration in Redis is no part of what it is made of.
unchanged :
    (t : ScanStore) (c : Option ScanConfig) (n : ℕ)
    → config_of t ≡ config_of (record t { config = c; notices = n })
unfolding config_of
unchanged t c n = refl

sync-Outcome :
    (on : Statements) (a : Answer) (respond : Answer → Response MimeType) (s t : ScanStore)
    → (respond a).status < 300
    → (respond failed).status ≡ 500
    → t.config ≡ s.config
    → let r = after_sync a (sync_scan_config_to_redis on t) in ScanOutcome s (respond r.0, r.1)
unfolding sync_scan_config_to_redis
sync-Outcome on a respond s t good bad same =
    option_intro P (build_scan_config on t) _ _ (λ _. broken bad same)
      (λ cfg e.
        if_intro P on.redis _ _
          (λ _. stored good (built on t cfg e ∙ ap some (unchanged t (some cfg) (t.notices + 1))))
          (λ _. broken bad same))
  where
    P : Bool × ScanStore → Type 0
    P q = let r = after_sync a q in ScanOutcome s (respond r.0, r.1)

setting-Outcome :
    (on : Statements) (key value actor : Text) (s : ScanStore)
    → let r = update_scan_setting on key value actor s in ScanOutcome s (setting_response r.0, r.1)
unfolding update_scan_setting
setting-Outcome on key value actor s =
    if_intro P on.change _ _
      (λ _.
        if_intro P (has_setting key s.settings) _ _
          (λ _.
            sync-Outcome on saved setting_response s
              (record s { settings = set_setting key value actor s.settings }) (omega arith) refl
              refl)
          (λ _. refused (omega arith) (omega arith) refl))
      (λ _. broken refl refl)
  where
    P : Answer × ScanStore → Type 0
    P r = ScanOutcome s (setting_response r.0, r.1)

mime-Outcome :
    (on : Statements) (p : Text) (enabled : Option Bool) (note actor : Text) (s : ScanStore)
    → let r = update_mime_type on p enabled note actor s in ScanOutcome s (mime_response r.0, r.1)
unfolding update_mime_type
mime-Outcome on p enabled note actor s =
    if_intro P on.change _ _
      (λ _.
        option_intro P (find_mime p s.mime_types) _ _
          (λ _. refused (omega arith) (omega arith) refl)
          (λ t _.
            sync-Outcome on (saved_mime (changed_mime enabled note actor t)) mime_response s
              (record s { mime_types = set_mime p enabled note actor s.mime_types }) (omega arith)
              refl refl))
      (λ _. broken refl refl)
  where
    P : Answer × ScanStore → Type 0
    P r = ScanOutcome s (mime_response r.0, r.1)

mime_body-Outcome :
    (on : Statements) (p : Text) (b : Option MimeBody) (s : ScanStore)
    → ScanOutcome s (mime_body on p b s)
unfolding mime_body
mime_body-Outcome on p none s = refused (omega arith) (omega arith) refl
mime_body-Outcome on p (some b) s =
    if_intro (ScanOutcome s) (no_change b) _ _ (λ _. refused (omega arith) (omega arith) refl)
      (λ _. mime-Outcome on p b.enabled b.note b.actor s)

-- A request that changes a setting or a MIME type either succeeds, and Redis holds the configuration
-- that the tables stand for, or is refused with a status from 400 to 499, and nothing has changed, or
-- is answered with 500, and Redis holds what it held.
pub handle_scan-Outcome :
    (on : Statements) (c : ScanCall) (s : ScanStore) → ScanOutcome s (handle_scan on c s)
unfolding handle_scan handle_patch_scan_setting handle_patch_mime_type
handle_scan-Outcome on (patch_setting none) s = refused (omega arith) (omega arith) refl
handle_scan-Outcome on (patch_setting (some b)) s =
    if_intro (ScanOutcome s) (text_eq b.key [] || text_eq b.value []) _ _
      (λ _. refused (omega arith) (omega arith) refl)
      (λ _. setting-Outcome on b.key b.value b.actor s)
handle_scan-Outcome on (patch_mime none b) s = refused (omega arith) (omega arith) refl
handle_scan-Outcome on (patch_mime (some p) b) s =
    if_intro (ScanOutcome s) (text_eq (trim_space p) []) _ _
      (λ _. refused (omega arith) (omega arith) refl) (λ _. mime_body-Outcome on p b s)
