-- ===== src/AppServer/Pagination/Pages.antt =====
-- The pages behind the items that pagination returns (src/app-server/pagination.ts).
use mathlib.Core.List.{append_assoc, append-nil}
use mathlib.Core.Path.{subst}
use codexhook.Base.{
  ℕ, zero, suc, ◌+◌, ◌≤◌, ◌<◌, ◌≡◌, ◌⊎◌, ◌↔◌, refl, sym, ap, ◌∙◌, ◌==◌, String, false, Option, none,
  some, List, [], ◌∷◌, ◌++◌, length, length-append, any, ltb, arith, Bool-cases, Option-cases, inl,
  inr,
}
use codexhook.Base.Result.{Result, ok, err}
use codexhook.AppServer.Pagination.{max_pages, max_items, Page, read_pages, paginate}

module _ {F A : Type 0} (pagination_failure : F) (fetch : Option String → Result F (Page A)) where
  -- The pages from a cursor on: each but the last names the next cursor, and the items are theirs.
  abbrev pub Chain : Option String → List String → List A → Type 0
  Chain cursor [] items =
      (page : Page A) × (fetch cursor ≡ ok page)
      × (page.next_cursor ≡ none)
      × (page.data_items ≡ items)
  Chain cursor (next ∷ cursors) items =
      (page : Page A) × (rest : List A) × (fetch cursor ≡ ok page)
      × (page.next_cursor ≡ some next)
      × (items ≡ page.data_items ++ rest)
      × Chain (some next) cursors rest

  -- No cursor comes twice.
  abbrev pub IsFresh : List String → List String → Type 0
  IsFresh seen [] = Unit
  IsFresh seen (next ∷ cursors) =
      (any (λ other. other == next) seen ≡ false) × IsFresh (next ∷ seen) cursors

  abbrev Reads : ℕ → List A → List String → Option String → List A → Type 0
  Reads n items seen cursor all =
      (cursors : List String) × (rest : List A) × (all ≡ items ++ rest)
      × Chain cursor cursors rest
      × IsFresh seen cursors
      × (length cursors < n)
      × (length all ≤ max_items)

  fetch-cases :
      (r : Result F (Page A)) → ((f : F) × (r ≡ err f)) ⊎ ((page : Page A) × (r ≡ ok page))
  fetch-cases (err f) = inl (f, refl)
  fetch-cases (ok page) = inr (page, refl)

  read_pages-Reads :
      (n : ℕ) (items : List A) (seen : List String) (cursor : Option String) (all : List A)
      → read_pages pagination_failure fetch n items seen cursor ≡ ok all
      → Reads n items seen cursor all
  unfolding read_pages
  read_pages-Reads zero items seen cursor all h = absurd (cc)
  read_pages-Reads (suc n) items seen cursor all h = elim (fetch-cases (fetch cursor)) [
    | inl (f, failed) ↦ absurd (ground arith)
    | inr (page, fetched) ↦
        elim (Bool-cases (ltb max_items (length items + length page.data_items))) [
          | inl over ↦ absurd (ground arith)
          | inr fits ↦ elim (Option-cases page.next_cursor) [
            | inl last ↦
                let same : items ++ page.data_items ≡ all = ground arith in
                let small : length items + length page.data_items ≤ max_items = ground arith in
                (
                  [],
                  page.data_items,
                  sym same,
                  (page, fetched, last, refl),
                  tt,
                  omega arith,
                  rw (← same) (omega (arith, length-append items page.data_items, small)),
                )
            | inr (next, more) ↦ elim (Bool-cases (any (λ other. other == next) seen)) [
              | inl again ↦ absurd (ground arith)
              | inr fresh ↦
                  let (cursors, rest, joined, chain, distinct, short, small) =
                    read_pages-Reads n (items ++ page.data_items) (next ∷ seen) (some next) all
                      (ground arith) in
                  (
                    next ∷ cursors,
                    page.data_items ++ rest,
                    joined ∙ append_assoc items page.data_items rest,
                    (page, rest, fetched, more, refl, chain),
                    (fresh, distinct),
                    omega arith,
                    small,
                  )
            ]
          ]
        ]
  ]

  read_last :
      (n : ℕ) (items : List A) (seen : List String) (cursor : Option String) (page : Page A)
      → fetch cursor ≡ ok page
      → ltb max_items (length items + length page.data_items) ≡ false
      → page.next_cursor ≡ none
      → read_pages pagination_failure fetch (suc n) items seen cursor
        ≡ ok (items ++ page.data_items)
  unfolding read_pages
  read_last n items seen cursor page fetched fits last = rw (fetched, fits, last, read_pages) refl

  read_more :
      (n : ℕ) (items : List A) (seen : List String) (cursor : Option String) (page : Page A)
      (next : String)
      → fetch cursor ≡ ok page
      → ltb max_items (length items + length page.data_items) ≡ false
      → page.next_cursor ≡ some next
      → any (λ other. other == next) seen ≡ false
      → read_pages pagination_failure fetch (suc n) items seen cursor
        ≡ read_pages pagination_failure fetch n (items ++ page.data_items) (next ∷ seen) (some next)
  unfolding read_pages
  read_more n items seen cursor page next fetched fits more new =
      rw (fetched, fits, more, new, read_pages) refl

  fits-append :
      (items page rest : List A)
      → length (items ++ (page ++ rest)) ≤ max_items
      → ltb max_items (length items + length page) ≡ false
  fits-append items page rest small =
      let outer = length-append items (page ++ rest) in
      let inner = length-append page rest in ground arith

  Reads-read_pages :
      (n : ℕ) (items : List A) (seen : List String) (cursor : Option String) (cursors : List String)
      (rest : List A)
      → Chain cursor cursors rest
      → IsFresh seen cursors
      → length cursors < n
      → length (items ++ rest) ≤ max_items
      → read_pages pagination_failure fetch n items seen cursor ≡ ok (items ++ rest)
  Reads-read_pages zero items seen cursor cursors rest chain fresh short small =
      absurd (omega arith)
  Reads-read_pages (suc n) items seen cursor [] rest (page, fetched, last, same) fresh short small =
      read_last n items seen cursor page fetched
        (fits-append items page.data_items [] (rw (append-nil page.data_items, same) small)) last
      ∙ ap (λ l. ok (items ++ l)) same
  Reads-read_pages (suc n) items seen cursor (next ∷ cursors) all
        (page, rest, fetched, more, joined, chain) (new, fresh) short small =
      let whole : items ++ all ≡ (items ++ page.data_items) ++ rest =
        ap (◌++◌ items) joined ∙ sym (append_assoc items page.data_items rest) in
      read_more n items seen cursor page next fetched
        (fits-append items page.data_items rest (rw joined at small)) more new
      ∙ Reads-read_pages n (items ++ page.data_items) (next ∷ seen) (some next) cursors rest chain
          fresh (omega arith) (rw whole at small)
      ∙ ap ok (sym whole)

-- Pagination returns items exactly if they are those of a chain of at most 1000 pages, each but the
-- last with the cursor of the next one, no cursor twice, and at most 50000 items in all, in the
-- order of the pages.
pub paginate-Chain :
    {F A : Type 0} (pagination_failure : F) (fetch : Option String → Result F (Page A))
    (items : List A)
    → (paginate pagination_failure fetch ≡ ok items) ↔ (
        (cursors : List String) × Chain pagination_failure fetch none cursors items
        × IsFresh pagination_failure fetch [] cursors
        × (length cursors < max_pages)
        × (length items ≤ max_items))
unfolding paginate
paginate-Chain pagination_failure fetch items = (
  λ h.
      let (cursors, rest, same, chain, fresh, short, small) =
        read_pages-Reads pagination_failure fetch max_pages [] [] none items h in
      (
        cursors,
        subst (λ l. Chain pagination_failure fetch none cursors l) (sym same) chain,
        fresh,
        short,
        small,
      ),
  λ (cursors, chain, fresh, short, small).
      Reads-read_pages pagination_failure fetch max_pages [] [] none cursors items chain fresh short
        small,
)
