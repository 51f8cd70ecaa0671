-- ===== src/Server/Pager.antt =====
-- internal/server/pager.go: the pages of a list. Page numbers and sizes are natural numbers:
-- parsePage and parsePageSize return no negative ones. The label of a page is its number.
mod Tests
pub mod Laws
use groot_share.Prelude.{
  ℕ, zero, suc, ◌+◌, ◌-◌, ◌*◌, ◌/◌, Bool, true, false, not, List, [], ◌∷◌, ◌++◌, ltb, leb, ◌==◌,
  if◌then◌else◌, length, take, drop, map,
}

abbrev pub html_page_size : ℕ
html_page_size = 25

pub data PageRef : Type 0 where
  page : ℕ → PageRef
  ellipsis : PageRef

-- pageView, without the fields for sorting
pub record PageView : Type 0 where
  pub current : ℕ
  pub page_size : ℕ
  pub total_pages : ℕ
  pub total : ℕ
  pub has_prev : Bool
  pub has_next : Bool
  pub prev_page : ℕ
  pub next_page : ℕ
  pub first_page : ℕ
  pub last_page : ℕ
  pub pages : List PageRef

-- The pages from `p` on, `n` of them.
abbrev pub run : ℕ → ℕ → List PageRef
run p zero = []
run p (suc n) = page p ∷ run (suc p) n

abbrev at_least : ℕ → ℕ → ℕ
at_least low n = if ltb n low then low else n

abbrev at_most : ℕ → ℕ → ℕ
at_most high n = if ltb high n then high else n

abbrev gap : Bool → List PageRef
gap true = ellipsis ∷ []
gap false = []

-- `for p := lo; p <= hi; p++`, for `hi` not below `lo - 1`
abbrev between : ℕ → ℕ → List PageRef
between lo hi = run lo (suc hi - lo)

-- The window of more than 7 pages. `current - 1 > 2` and `current + 1 < total - 1` need no
-- negative number, since `1 <= current` and `7 < total`.
abbrev long_window : ℕ → ℕ → List PageRef
long_window current total =
    page 1 ∷ gap (ltb 2 (current - 1))
    ++ between (at_least 2 (current - 1)) (at_most (total - 1) (current + 1))
    ++ gap (ltb (current + 1) (total - 1))
    ++ page total ∷ []

-- pageWindow
unfoldable pub page_window : ℕ → ℕ → List PageRef
page_window current total_pages =
    let total = if total_pages == 0 then 1 else total_pages in
    let cur = at_most total (at_least 1 current) in
    if leb total 7 then run 1 total else long_window cur total

abbrev pub pages_of : ℕ → ℕ → ℕ
pages_of total page_size = at_least 1 ((total + page_size - 1) / page_size)

-- pageViewFor
unfoldable pub page_view_for : ℕ → ℕ → ℕ → PageView
unfolding page_window
page_view_for total asked asked_size =
    let page_size = if asked_size == 0 then html_page_size else asked_size in
    let total_pages = pages_of total page_size in
    let current = at_most total_pages (at_least 1 asked) in
    record {
      current = current;
      page_size = page_size;
      total_pages = total_pages;
      total = total;
      has_prev = ltb 1 current;
      has_next = ltb current total_pages;
      prev_page = current - 1;
      next_page = current + 1;
      first_page = 1;
      last_page = total_pages;
      pages = page_window current total_pages;
    }

-- The slice that paginateSlice returns, which is nil where no item is left.
abbrev pub slice_at {ℓ} : {A : Type ℓ} → List A → ℕ → ℕ → List A
slice_at items start page_size =
    if length items == 0
    then []
    else if leb (length items) start
    then []
    else take (at_most (length items) (start + page_size) - start) (drop start items)

-- paginateSlice
unfoldable pub paginate_slice {ℓ} : {A : Type ℓ} → List A → ℕ → ℕ → List A × PageView
unfolding page_view_for
paginate_slice items asked page_size =
    let pv = page_view_for (length items) asked page_size in
    (slice_at items ((pv.current - 1) * page_size) page_size, pv)
