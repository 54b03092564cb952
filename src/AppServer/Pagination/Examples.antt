-- ===== src/AppServer/Pagination/Examples.antt =====
-- Pagination at a concrete server with two pages.
use codexhook.Base.{ℕ, ◌≡◌, ◌↔◌, ◌<◌, ◌≤◌, String, Option, none, some, List, [], ◌∷◌, length}
use codexhook.Base.Result.{Result, ok}
use codexhook.AppServer.Pagination.{max_pages, max_items, Page, paginate}
use codexhook.AppServer.Pagination.Pages.{Chain, IsFresh, paginate-Chain}

abbrev two_pages : Option String → Result String (Page ℕ)
two_pages none = ok (record { data_items = 1 ∷ 2 ∷ []; next_cursor = some "a" })
two_pages (some cursor) = ok (record { data_items = 3 ∷ []; next_cursor = none })

paginate-Chain_example : (paginate "pagination" two_pages ≡ ok (1 ∷ 2 ∷ 3 ∷ [])) ↔ (
    (cursors : List String) × Chain "pagination" two_pages none cursors (1 ∷ 2 ∷ 3 ∷ [])
    × IsFresh "pagination" two_pages [] cursors
    × (length cursors < max_pages)
    × (length {A = ℕ} (1 ∷ 2 ∷ 3 ∷ []) ≤ max_items))
paginate-Chain_example = paginate-Chain "pagination" two_pages (1 ∷ 2 ∷ 3 ∷ [])
