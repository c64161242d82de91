-- ===== src/Scan/Config.antt =====
-- internal/scan/config.go: the allow list of MIME types that are scanned.
pub mod Laws
mod Tests
use i_filter_imitation.Common.{
  ℕ, ◌*◌, ◌^◌, ◌%◌, List, [], ◌∷◌, map, Bool, true, false, ◌&&◌, ◌||◌, Option, none, some,
  if◌then◌else◌, Text, codes, text_eq, to_lower, trim_space, has_prefix, trim_suffix, before_byte,
}

pub record MimeRule : Type 0 where
  pub pattern : Text
  pub is_prefix : Bool
  pub enabled : Bool

pub record ScanConfig : Type 0 where
  pub enabled : Bool
  pub max_size_mb : ℕ
  pub rules : List MimeRule

-- `MaxSizeMB << 20`: the int64 as its 64 bits. A value from 2 ^ 63 on is a negative number.
unfoldable pub max_size_bytes : ScanConfig → ℕ
max_size_bytes c = c.max_size_mb * 2 ^ 20 % 2 ^ 64

-- The type without its parameters, in lower case and trimmed.
unfoldable pub media_type : Text → Text
unfolding before_byte to_lower trim_space
media_type ct = trim_space (to_lower (elim (before_byte ct b';') [ none ↦ ct | some t ↦ t ]))

unfoldable pub rule_matches : MimeRule → Text → Bool
unfolding has_prefix trim_suffix text_eq
rule_matches r ct =
    if r.is_prefix then has_prefix ct (trim_suffix r.pattern (b'*' ∷ [])) else text_eq ct r.pattern

-- the loop over the rules
unfoldable pub any_rule : List MimeRule → Text → Bool
unfolding rule_matches
any_rule [] ct = false
any_rule (r ∷ rs) ct =
    let rest = any_rule rs ct in
    if r.enabled then if rule_matches r ct then true else rest else rest

unfoldable pub is_scannable : ScanConfig → Text → Bool
unfolding media_type any_rule
is_scannable c ct = if c.enabled then any_rule c.rules (media_type ct) else false

abbrev exact_rule : Text → MimeRule
exact_rule p = record { pattern = p; is_prefix = false; enabled = true }

abbrev pub default_rules : List MimeRule
default_rules =
    exact_rule (codes "application/zip")
    ∷ exact_rule (codes "application/x-zip-compressed")
    ∷ exact_rule (codes "application/vnd.rar")
    ∷ exact_rule (codes "application/x-7z-compressed")
    ∷ exact_rule (codes "application/x-tar")
    ∷ exact_rule (codes "application/gzip")
    ∷ exact_rule (codes "application/x-bzip2")
    ∷ exact_rule (codes "application/x-xz")
    ∷ exact_rule (codes "application/x-lzma")
    ∷ exact_rule (codes "application/x-lzip")
    ∷ exact_rule (codes "application/x-zstd")
    ∷ exact_rule (codes "application/x-cab")
    ∷ exact_rule (codes "application/vnd.ms-cab-compressed")
    ∷ exact_rule (codes "application/x-iso9660-image")
    ∷ exact_rule (codes "application/x-apple-diskimage")
    ∷ exact_rule (codes "application/octet-stream")
    ∷ exact_rule (codes "binary/octet-stream")
    ∷ exact_rule (codes "application/x-msdownload")
    ∷ exact_rule (codes "application/x-dosexec")
    ∷ exact_rule (codes "application/x-executable")
    ∷ exact_rule (codes "application/x-msi")
    ∷ exact_rule (codes "application/x-ms-installer")
    ∷ exact_rule (codes "application/vnd.microsoft.portable-executable")
    ∷ exact_rule (codes "application/pdf")
    ∷ exact_rule (codes "application/rtf")
    ∷ exact_rule (codes "text/rtf")
    ∷ exact_rule (codes "application/msword")
    ∷ exact_rule (codes "application/vnd.ms-excel")
    ∷ exact_rule (codes "application/vnd.ms-powerpoint")
    ∷ exact_rule (codes "application/vnd.ms-office")
    ∷ exact_rule (codes "application/vnd.openxmlformats-officedocument.wordprocessingml.document")
    ∷ exact_rule (codes "application/vnd.openxmlformats-officedocument.spreadsheetml.sheet")
    ∷ exact_rule (codes "application/vnd.openxmlformats-officedocument.presentationml.presentation")
    ∷ exact_rule (codes "application/java-archive")
    ∷ exact_rule (codes "application/x-java-archive")
    ∷ exact_rule (codes "application/vnd.android.package-archive")
    ∷ exact_rule (codes "message/rfc822")
    ∷ exact_rule (codes "application/vnd.ms-outlook")
    ∷ record { pattern = codes "application/x-*"; is_prefix = true; enabled = true }
    ∷ []

unfoldable pub default_scan_config : ScanConfig
default_scan_config = record { enabled = true; max_size_mb = 100; rules = default_rules }
