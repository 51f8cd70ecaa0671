-- ===== src/Server/Pager/Tests.antt =====
-- Pages of a short list.
use groot_share.Prelude.{ℕ, ◌*◌, ◌≤◌, ◌≡◌, ◌↔◌, refl, arith, true, [], ◌∷◌}
use groot_share.Server.Pager.{page_view_for, paginate_slice}
use groot_share.Server.Pager.Laws.{pages_from, paginate_slice-cover, page_view_for-bounds}

second_page : (paginate_slice {A = ℕ} (1 ∷ 2 ∷ 3 ∷ 4 ∷ 5 ∷ []) 2 2).0 ≡ 3 ∷ 4 ∷ []
unfolding paginate_slice page_view_for
second_page = refl

paginate_slice-cover_example :
    pages_from {A = ℕ} (1 ∷ 2 ∷ 3 ∷ 4 ∷ 5 ∷ []) 2 0 (page_view_for 5 1 2).total_pages
    ≡ 1 ∷ 2 ∷ 3 ∷ 4 ∷ 5 ∷ []
paginate_slice-cover_example = paginate_slice-cover (1 ∷ 2 ∷ 3 ∷ 4 ∷ 5 ∷ []) 2 (omega arith)

page_view_for-bounds_example :
    let pv = page_view_for 101 9 25 in
    (1 ≤ pv.current)
    × (pv.current ≤ pv.total_pages)
    × ((pv.has_prev ≡ true) ↔ (1 ≤ pv.prev_page))
    × ((pv.has_next ≡ true) ↔ (pv.next_page ≤ pv.last_page))
    × (101 ≤ pv.total_pages * pv.page_size)
page_view_for-bounds_example = page_view_for-bounds 101 9 25
