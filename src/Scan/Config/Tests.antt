-- ===== src/Scan/Config/Tests.antt =====
-- Runs of the default configuration, and the theorem on it.
use i_filter_imitation.Common.{codes, true, false, Any, ◌≡◌, ◌↔◌, refl}
use i_filter_imitation.Scan.Config.{media_type, max_size_bytes, is_scannable, default_scan_config}
use i_filter_imitation.Scan.Config.Laws.{Names, is_scannable_iff}

zip : is_scannable default_scan_config (codes " Application/ZIP ; charset=x") ≡ true
unfolding is_scannable default_scan_config
zip = refl

script : is_scannable default_scan_config (codes "application/x-sh") ≡ true
unfolding is_scannable default_scan_config
script = refl

page : is_scannable default_scan_config (codes "text/html") ≡ false
unfolding is_scannable default_scan_config
page = refl

hundred_mb : max_size_bytes default_scan_config ≡ 104857600
unfolding max_size_bytes default_scan_config
hundred_mb = refl

is_scannable_iff_example : (is_scannable default_scan_config (codes "application/x-sh") ≡ true) ↔ (
    (default_scan_config.enabled ≡ true)
    × Any
        (λ r. (r.enabled ≡ true) × Names r (media_type (codes "application/x-sh")))
        default_scan_config.rules)
is_scannable_iff_example = is_scannable_iff default_scan_config (codes "application/x-sh")
