-- ===== src/Api/Pagination/Pages.antt =====
-- The pages of a list.
use i_filter_imitation.Common.{
  ℕ, zero, suc, ◌+◌, ◌-◌, ◌*◌, ◌%◌, ◌^◌, ◌≤◌, ◌<◌, List, [], ◌++◌, false, Option, none, some,
  length, take, take_of_nil, drop_all, take-add, drop, ◌≡◌, refl, sym, ap, ap₂, ◌∙◌, arith,
}
use i_filter_imitation.Api.Pagination.{
  ListQuery, PagedResult, is_negative, clamped_limit, page_of, offset, select_page, total_of,
  list_page,
}

-- A page has a number from 1 on and from 1 to 1000 rows, whatever the request says.
pub clamped_limit-bounds :
    (lq : ListQuery) → (1 ≤ clamped_limit lq) × (clamped_limit lq ≤ 1000) × (1 ≤ page_of lq)
unfolding clamped_limit page_of
clamped_limit-bounds lq = ground arith

abbrev pub at_page : ℕ → ListQuery → ListQuery
at_page n lq = record lq { page = n }

abbrev pub items_of : {A : Type 0} → Option (PagedResult A) → List A
items_of none = []
items_of (some r) = r.items

page_of-at_page : (lq : ListQuery) (k : ℕ) → k + 1 < 2 ^ 63 → page_of (at_page (k + 1) lq) ≡ k + 1
unfolding page_of
page_of-at_page lq k h = ground (arith, h)

mod_small : (x : ℕ) → x < 2 ^ 63 → x % 2 ^ 64 ≡ x
mod_small x h = omega (arith, h)

less_one : (k : ℕ) → k + 1 - 1 ≡ k
less_one k = omega arith

offset-at_page :
    (lq : ListQuery) (k : ℕ)
    → k + 1 < 2 ^ 63
    → k * clamped_limit lq < 2 ^ 63
    → offset (at_page (k + 1) lq) ≡ k * clamped_limit lq
unfolding offset clamped_limit
offset-at_page lq k h l =
    ap (λ p. (p - 1) * clamped_limit lq % 2 ^ 64) (page_of-at_page lq k h)
    ∙ ap (λ j. j * clamped_limit lq % 2 ^ 64) (less_one k)
    ∙ mod_small (k * clamped_limit lq) l

zero_times : (n : ℕ) → 0 ≡ 0 * n
zero_times n = omega arith

suc_times : (k n : ℕ) → k * n + n ≡ suc k * n
suc_times k n = grind arith

-- A page number times a limit of at most 1000 is no more than the number times 1000.
no_overflow : (lq : ListQuery) (k : ℕ) → k * 1000 < 2 ^ 63 → k * clamped_limit lq < 2 ^ 63
no_overflow lq k h = let b = clamped_limit-bounds lq in grind (arith, h, b)

module _ {A : Type 0} where
  -- the page with this offset
  abbrev page_at : ListQuery → ℕ → ℕ → List A → PagedResult A
  page_at lq p o rows = record {
    total = total_of rows (take (clamped_limit lq) (drop o rows));
    page = p;
    limit = clamped_limit lq;
    items = take (clamped_limit lq) (drop o rows);
  }

  list_page-offset :
      (lq : ListQuery) (rows : List A) (o : ℕ)
      → offset lq ≡ o
      → o < 2 ^ 63
      → list_page lq rows ≡ some (page_at lq (page_of lq) o rows)
  unfolding list_page select_page
  list_page-offset lq rows o e h =
      let fits : is_negative o ≡ false = ground (arith, h) in rw (e, fits, list_page) refl

  list_page-at_page :
      (lq : ListQuery) (k : ℕ) (rows : List A)
      → k + 1 < 2 ^ 63
      → k * clamped_limit lq < 2 ^ 63
      → list_page (at_page (k + 1) lq) rows ≡ some (page_at lq (k + 1) (k * clamped_limit lq) rows)
  unfolding clamped_limit
  list_page-at_page lq k rows h l =
      list_page-offset (at_page (k + 1) lq) rows (k * clamped_limit lq) (offset-at_page lq k h l) l
      ∙ ap (λ p. some (page_at lq p (k * clamped_limit lq) rows)) (page_of-at_page lq k h)

  -- the rows of the first pages, one after the other; each is cut from the rows as its own query orders
  -- them
  unfoldable pub pages : ListQuery → ℕ → (ℕ → List A) → List A
  unfolding list_page
  pages lq zero rows = []
  pages lq (suc k) rows = pages lq k rows ++ items_of (list_page (at_page (k + 1) lq) (rows k))

  -- If the database gives every query the same rows in the same order, the first pages, one after the
  -- other, are the first rows, as many as the pages have room for: no row is left out or stands twice.
  -- The number of pages times 1000 is below 2 to the 63.
  pub pages-take :
      (lq : ListQuery) (n : ℕ) (rows : ℕ → List A)
      → ((k : ℕ) → rows k ≡ rows 0)
      → n * 1000 < 2 ^ 63
      → pages lq n rows ≡ take (n * clamped_limit lq) (rows 0)
  unfolding pages
  pages-take lq zero rows same h = ap (λ n. take n (rows 0)) (zero_times (clamped_limit lq))
  pages-take lq (suc k) rows same h =
      ap₂ ◌++◌ (pages-take lq k rows same (omega (arith, h))) (
        ap items_of (
          ap (list_page (at_page (k + 1) lq)) (same k)
          ∙ list_page-at_page lq k (rows 0) (omega (arith, h))
              (no_overflow lq k (omega (arith, h)))))
      ∙ sym (take-add (k * clamped_limit lq) (clamped_limit lq) (rows 0))
      ∙ ap (λ n. take n (rows 0)) (suc_times k (clamped_limit lq))

  -- A page behind the last row says that there are no rows: its total is 0, whatever the list holds.
  pub list_page-total :
      (lq : ListQuery) (k : ℕ) (rows : List A)
      → (k + 1) * 1000 < 2 ^ 63
      → length rows ≤ k * clamped_limit lq
      → list_page (at_page (k + 1) lq) rows
        ≡ some (record { total = 0; page = k + 1; limit = clamped_limit lq; items = [] })
  unfolding total_of
  list_page-total lq k rows h l =
      let none_left : drop (k * clamped_limit lq) rows ≡ [] =
        drop_all (k * clamped_limit lq) rows l in
      list_page-at_page lq k rows (omega (arith, h)) (no_overflow lq k (omega (arith, h)))
      ∙ ap
          (λ xs. some (record {
            total = total_of rows (take (clamped_limit lq) xs);
            page = k + 1;
            limit = clamped_limit lq;
            items = take (clamped_limit lq) xs;
          }))
          none_left
      ∙ ap
          (λ xs. some (record {
            total = total_of rows xs;
            page = k + 1;
            limit = clamped_limit lq;
            items = xs;
          }))
          (take_of_nil (clamped_limit lq))
