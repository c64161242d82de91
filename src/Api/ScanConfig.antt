-- ===== src/Api/ScanConfig.antt =====
-- internal/api/scanconfig.go: the settings of the scanner. The tables are lists of rows, without ids and
-- times, and the value in Redis is the configuration that its JSON text holds. Whether each statement
-- of the database and the write to Redis succeed is an input of each call.
pub mod Sync
pub mod Limit
pub mod Handlers
mod Tests
use i_filter_imitation.Common.{
  ℕ, ◌+◌, ◌^◌, List, [], ◌∷◌, map, Bool, true, false, ◌||◌, ◌&&◌, not, Option, none, some, leb,
  ◌==◌, if◌then◌else◌, Text, codes, text_eq, parse_int,
}
use i_filter_imitation.Scan.Config.{MimeRule, ScanConfig}
use i_filter_imitation.Api.Blocklist.{coalesce}

pub record Setting : Type 0 where
  pub key : Text
  pub value : Text
  pub updated_by : Text

pub record MimeType : Type 0 where
  pub pattern : Text
  pub is_prefix : Bool
  pub enabled : Bool
  pub note : Text
  pub updated_by : Text

-- `config` is the value of the key in Redis, `notices` counts the messages on its channel.
pub record ScanStore : Type 0 where
  pub settings : List Setting
  pub mime_types : List MimeType
  pub config : Option ScanConfig
  pub notices : ℕ

-- which statements succeed
pub record Statements : Type 0 where
  pub change : Bool
  pub read_settings : Bool
  pub read_mime_types : Bool
  pub redis : Bool

pub data Answer : Type 0 where
  saved : Answer
  saved_mime : MimeType → Answer
  not_found failed : Answer

-- settings[k] after the loop over the rows: that of the last row of the key, or the empty text
unfoldable pub find_setting : Text → List Setting → Option Text
unfolding text_eq
find_setting k [] = none
find_setting k (s ∷ ss) = elim (find_setting k ss) [
  | some v ↦ some v
  | none ↦ if text_eq s.key k then some s.value else none
]

abbrev pub setting : Text → List Setting → Text
setting k ss = coalesce (find_setting k ss) []

-- `n <= 0` on the bits of an int64
abbrev pub not_positive : ℕ → Bool
not_positive n = n == 0 || leb (2 ^ 63) n

unfoldable pub max_size_of : List Setting → ℕ
unfolding find_setting parse_int
max_size_of ss =
    let n = parse_int (setting (codes "max_size_mb") ss) in if not_positive n then 500 else n

abbrev pub rule_of : MimeType → MimeRule
rule_of t = record { pattern = t.pattern; is_prefix = t.is_prefix; enabled = t.enabled }

-- the configuration that the tables stand for
unfoldable pub config_of : ScanStore → ScanConfig
unfolding find_setting max_size_of text_eq
config_of s = record {
  enabled = not (text_eq (setting (codes "enabled") s.settings) (codes "false"));
  max_size_mb = max_size_of s.settings;
  rules = map rule_of s.mime_types;
}

unfoldable pub build_scan_config : Statements → ScanStore → Option ScanConfig
unfolding config_of
build_scan_config on s =
    if on.read_settings then if on.read_mime_types then some (config_of s) else none else none

-- false is an error
unfoldable pub sync_scan_config_to_redis : Statements → ScanStore → Bool × ScanStore
unfolding build_scan_config
sync_scan_config_to_redis on s = elim (build_scan_config on s) [
  | none ↦ (false, s)
  | some cfg ↦
      if on.redis
      then (true, record s { config = some cfg; notices = s.notices + 1 })
      else (false, s)
]

unfoldable pub set_setting : Text → Text → Text → List Setting → List Setting
unfolding text_eq
set_setting key value actor [] = []
set_setting key value actor (s ∷ ss) =
    (if text_eq s.key key then record s { value = value; updated_by = actor } else s)
    ∷ set_setting key value actor ss

unfoldable pub has_setting : Text → List Setting → Bool
unfolding text_eq
has_setting key [] = false
has_setting key (s ∷ ss) = text_eq s.key key || has_setting key ss

-- the answer behind the sync
abbrev pub after_sync : Answer → Bool × ScanStore → Answer × ScanStore
after_sync a (ok, s) = (if ok then a else failed, s)

unfoldable pub update_scan_setting :
    Statements → Text → Text → Text → ScanStore → Answer × ScanStore
unfolding set_setting has_setting sync_scan_config_to_redis
update_scan_setting on key value actor s =
    if on.change
    then if has_setting key s.settings
      then after_sync saved (
          sync_scan_config_to_redis on
            (record s { settings = set_setting key value actor s.settings }))
      else (not_found, s)
    else (failed, s)

unfoldable pub nullable_string : Text → Option Text
nullable_string [] = none
nullable_string (c ∷ t) = some (c ∷ t)

abbrev pub changed_mime : Option Bool → Text → Text → MimeType → MimeType
changed_mime enabled note actor t = record t {
  enabled = coalesce enabled t.enabled;
  note = coalesce (nullable_string note) t.note;
  updated_by = actor;
}

unfoldable pub find_mime : Text → List MimeType → Option MimeType
unfolding text_eq
find_mime p [] = none
find_mime p (t ∷ ts) = let rest = find_mime p ts in if text_eq t.pattern p then some t else rest

unfoldable pub set_mime : Text → Option Bool → Text → Text → List MimeType → List MimeType
unfolding text_eq nullable_string
set_mime p enabled note actor [] = []
set_mime p enabled note actor (t ∷ ts) =
    (if text_eq t.pattern p then changed_mime enabled note actor t else t)
    ∷ set_mime p enabled note actor ts

unfoldable pub update_mime_type :
    Statements → Text → Option Bool → Text → Text → ScanStore → Answer × ScanStore
unfolding find_mime set_mime nullable_string sync_scan_config_to_redis
update_mime_type on p enabled note actor s =
    if on.change
    then elim (find_mime p s.mime_types) [
      | none ↦ (not_found, s)
      | some t ↦ after_sync (saved_mime (changed_mime enabled note actor t)) (
          sync_scan_config_to_redis on
            (record s { mime_types = set_mime p enabled note actor s.mime_types }))
    ]
    else (failed, s)
