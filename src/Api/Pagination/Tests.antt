-- ===== src/Api/Pagination/Tests.antt =====
-- Five rows in pages of two.
use i_filter_imitation.Common.{
  ℕ, zero, suc, ◌*◌, List, [], ◌∷◌, take, codes, parse_int, parse_digits, parse_uint, positive,
  negative, ◌≡◌, refl, arith,
}
use i_filter_imitation.Api.Pagination.{
  ListQuery, clamped_limit, page_of, offset, select_page, list_page,
}
use i_filter_imitation.Api.Pagination.Pages.{pages, pages-take}

abbrev twos : ListQuery
twos = record { q = []; sort = []; order = []; page = 0; limit = 2 }

abbrev rows : List ℕ
rows = 1 ∷ 2 ∷ 3 ∷ 4 ∷ 5 ∷ []

limits :
    (clamped_limit (record twos { limit = parse_int (codes "-3") }) ≡ 100)
    × (clamped_limit (record twos { limit = 1001 }) ≡ 100)
    × (page_of twos ≡ 1)
unfolding clamped_limit page_of parse_int parse_digits parse_uint positive negative
limits = (refl, refl, refl)

-- the same order for every query, and one that differs from page to page
abbrev in_order : ℕ → List ℕ
in_order _ = rows

abbrev swapping : ℕ → List ℕ
swapping zero = 1 ∷ 2 ∷ 3 ∷ 4 ∷ []
swapping (suc _) = 3 ∷ 4 ∷ 1 ∷ 2 ∷ []

pages-take_example : pages twos 3 in_order ≡ take (3 * clamped_limit twos) rows
pages-take_example = pages-take twos 3 in_order (λ _. refl) (omega arith)

-- Where the order of equal rows changes between the queries, rows stand twice and others are missing.
pages-swapping : pages twos 2 swapping ≡ 1 ∷ 2 ∷ 1 ∷ 2 ∷ []
unfolding pages list_page select_page offset clamped_limit page_of
pages-swapping = refl
