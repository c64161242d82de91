-- ===== src/Api/Domain/Tests.antt =====
-- Domains and texts that are none.
use i_filter_imitation.Common.{true, false, codes, ◌≡◌, ◌↔◌, refl}
use i_filter_imitation.Common.Regex.{match_string, nullable, deriv}
use i_filter_imitation.Api.Domain.{is_valid_domain}
use i_filter_imitation.Api.Domain.Grammar.{IsDomain, is_valid_domain_iff}

some_domains :
    (is_valid_domain (codes "a-1.com") ≡ true)
    × (is_valid_domain (codes "*.b.io") ≡ true)
    × (is_valid_domain (codes "com") ≡ false)
    × (is_valid_domain (codes "-a.com") ≡ false)
    × (is_valid_domain (codes "a.c") ≡ false)
    × (is_valid_domain (codes "a..com") ≡ false)
unfolding is_valid_domain match_string nullable deriv
some_domains = (refl, refl, refl, refl, refl, refl)

is_valid_domain_iff_example : (is_valid_domain (codes "*.b.io") ≡ true) ↔ IsDomain (codes "*.b.io")
is_valid_domain_iff_example = is_valid_domain_iff (codes "*.b.io")
