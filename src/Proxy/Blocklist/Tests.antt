-- ===== src/Proxy/Blocklist/Tests.antt =====
-- Runs of the blocklist, and its theorem at a list of two entries.
use i_filter_imitation.Common.{
  List, [], ◌∷◌, true, false, some, Text, codes, to_lower, trim_space, Any, ◌≡◌, ◌↔◌, refl,
}
use i_filter_imitation.Proxy.Blocklist.{new_blocklist, is_blocked, host_name}
use i_filter_imitation.Proxy.Blocklist.Covers.{Covers, is_blocked_iff}

abbrev entries : List Text
entries = codes " Example.com " ∷ codes "*.example.org" ∷ []

exact_name : is_blocked (some (new_blocklist entries)) (codes "EXAMPLE.com:443") ≡ true
unfolding is_blocked new_blocklist
exact_name = refl

subdomain : is_blocked (some (new_blocklist entries)) (codes "a.b.example.org") ≡ true
unfolding is_blocked new_blocklist
subdomain = refl

base_domain : is_blocked (some (new_blocklist entries)) (codes "example.org") ≡ false
unfolding is_blocked new_blocklist
base_domain = refl

is_blocked_iff_example :
    (is_blocked (some (new_blocklist entries)) (codes "a.b.example.org") ≡ true)
    ↔ Any (λ d. Covers (to_lower (trim_space d)) (host_name (codes "a.b.example.org"))) entries
is_blocked_iff_example = is_blocked_iff entries (codes "a.b.example.org")
