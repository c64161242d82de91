-- ===== src/Api/Pagination.antt =====
-- internal/api/pagination.go, and the list queries of internal/api/blocklist.go. A Go int is its 64 bits.
-- Which rows match and in which order they stand is the database's: a query is given all the rows that
-- match, in the order of this query. The columns to sort by are not unique, so that another query may
-- order the same rows in another way.
pub mod Pages
mod Tests
use i_filter_imitation.Common.{
  ℕ, ◌+◌, ◌-◌, ◌*◌, ◌%◌, ◌^◌, List, [], ◌∷◌, Bool, true, false, ◌||◌, Option, none, some, ltb, leb,
  ◌==◌, if◌then◌else◌, Text, codes, text_eq, length, take, drop, parse_int,
}
use i_filter_imitation.Api.Response.{Response, json_ok, json_error}

pub record ListQuery : Type 0 where
  pub q : Text
  pub sort : Text
  pub order : Text
  pub page : ℕ
  pub limit : ℕ

pub record PagedResult (A : Type 0) : Type 0 where
  pub total : ℕ
  pub page : ℕ
  pub limit : ℕ
  pub items : List A

-- the word of the SQL text
unfoldable pub order_of : ListQuery → Text
unfolding text_eq
order_of lq = if text_eq lq.order (codes "asc") then codes "ASC" else codes "DESC"

-- a bit pattern of a negative number
abbrev pub is_negative : ℕ → Bool
is_negative n = leb (2 ^ 63) n

unfoldable pub clamped_limit : ListQuery → ℕ
clamped_limit lq =
    if is_negative lq.limit || lq.limit == 0
    then 100
    else if ltb 1000 lq.limit
    then 100
    else lq.limit

-- 1 for a page number below 1
unfoldable pub page_of : ListQuery → ℕ
page_of lq = if is_negative lq.page || lq.page == 0 then 1 else lq.page

unfoldable pub offset : ListQuery → ℕ
unfolding page_of clamped_limit
offset lq = (page_of lq - 1) * clamped_limit lq % 2 ^ 64

-- the column that the rows are sorted by
unfoldable pub sort_column : List Text → Text → Text → Text
unfolding text_eq
sort_column [] default sort = default
sort_column (column ∷ columns) default sort =
    let rest = sort_column columns default sort in if text_eq sort column then column else rest

-- LIMIT and OFFSET of one query, on the rows as it orders them: an error for a negative offset
unfoldable pub select_page : {A : Type 0} → ListQuery → List A → Option (List A)
unfolding offset clamped_limit
select_page lq rows =
    if is_negative (offset lq) then none else some (take (clamped_limit lq) (drop (offset lq) rows))

-- `COUNT(*) OVER()` stands in each row of the page, and the loop over the rows keeps the last.
unfoldable pub total_of : {A : Type 0} → List A → List A → ℕ
total_of rows [] = 0
total_of rows (x ∷ items) = length rows

unfoldable pub list_page : {A : Type 0} → ListQuery → List A → Option (PagedResult A)
unfolding select_page total_of page_of clamped_limit
list_page lq rows = elim (select_page lq rows) [
  | none ↦ none
  | some items ↦ some (record {
    total = total_of rows items;
    page = page_of lq;
    limit = clamped_limit lq;
    items = items;
  })
]

-- The query parameters of a list request, each the text that the URL gives for it.
unfoldable pub list_query : Text → Text → Text → Text → Text → ListQuery
unfolding parse_int
list_query q sort order page limit = record {
  q = q;
  sort = sort;
  order = order;
  page = parse_int page;
  limit = parse_int limit;
}

-- `handleList` and `handleAudit` behind the query: none is an error of the database.
unfoldable pub handle_page : {A : Type 0} → Option (PagedResult A) → Response (PagedResult A)
handle_page none = json_error (codes "internal error") 500
handle_page (some r) = json_ok r
