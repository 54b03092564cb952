-- ===== src/AppServer/Pagination.antt =====
-- Reading all pages of a list (src/app-server/pagination.ts). `fetch` is a function of the cursor:
-- no cursor is asked for twice, so it stands for any server.
pub mod Pages
mod Examples
use codexhook.Base.{
  ℕ, zero, suc, ◌+◌, ◌*◌, ◌==◌, String, Bool, Option, none, some, List, [], ◌∷◌, ◌++◌, length, any,
  ltb, if◌then◌else◌,
}
use codexhook.Base.Result.{Result, ok, err}

abbrev pub max_pages : ℕ
max_pages = 1000

abbrev pub max_items : ℕ
max_items = 50 * 1000

pub record Page (A : Type 0) : Type 0 where
  pub data_items : List A
  pub next_cursor : Option String

module _ {F A : Type 0} (pagination_failure : F) (fetch : Option String → Result F (Page A)) where
  -- The loop, with the pages that may still be read; without one, the cursor is one too many.
  unfoldable pub read_pages : ℕ → List A → List String → Option String → Result F (List A)
  read_pages zero items seen cursor = err pagination_failure
  read_pages (suc n) items seen cursor = elim (fetch cursor) [
    | err failure ↦ err failure
    | ok page ↦
        if ltb max_items (length items + length page.data_items)
        then err pagination_failure
        else elim page.next_cursor [
          | none ↦ ok (items ++ page.data_items)
          | some next ↦
              if any (λ other. other == next) seen
              then err pagination_failure
              else read_pages n (items ++ page.data_items) (next ∷ seen) (some next)
        ]
  ]

  unfoldable pub paginate : Result F (List A)
  paginate = read_pages max_pages [] [] none
