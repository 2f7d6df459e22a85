-- ===== src/Pagination.antt =====
-- frontend/src/components/common/Pagination.jsx, and the slice of a list that a page shows, as
-- frontend/src/pages/customer/TransactionHistory/TransactionHistory.jsx takes it. Pages are counted
-- from 1; the number of items on a page is positive, as it is wherever the source sets it.
pub mod Window
pub mod Slices
use hybrid_quantum_cryptogra.Prelude.{
  ℕ, ◌+◌, ◌-◌, ◌*◌, ◌/◌, Option, none, some, List, [], ◌∷◌, if◌then◌else◌, ltb, leb, ◌==◌, take,
  drop, zero, suc,
}

-- `Math.ceil(totalItems / itemsPerPage)`
unfoldable pub page_count : ℕ → ℕ → ℕ
page_count total_items items_per_page = (total_items + items_per_page - 1) / items_per_page

-- The page that a button asks for, if it asks for one.
unfoldable pub handle_previous : ℕ → Option ℕ
handle_previous current_page = if ltb 1 current_page then some (current_page - 1) else none

unfoldable pub handle_next : ℕ → ℕ → Option ℕ
handle_next current_page total_pages =
    if ltb current_page total_pages then some (current_page + 1) else none

unfoldable pub handle_page_click : ℕ → ℕ → Option ℕ
handle_page_click current_page page = if page == current_page then none else some page

pub data Entry : Type 0 where
  number : ℕ → Entry
  ellipsis : Entry

-- `for (let i = from; …)` over `count` pages.
pages_from : ℕ → ℕ → List Entry
pages_from from zero = []
pages_from from (suc count) = number from ∷ pages_from (from + 1) count

unfoldable pub get_page_numbers : ℕ → ℕ → List Entry
unfolding pages_from
get_page_numbers current_page total_pages =
    if leb total_pages 5
    then pages_from 1 total_pages
    else if leb current_page 3
    then number 1 ∷ number 2 ∷ number 3 ∷ number 4 ∷ ellipsis ∷ number total_pages ∷ []
    else if leb (total_pages - 2) current_page
    then number 1
      ∷ ellipsis
      ∷ number (total_pages - 3)
      ∷ number (total_pages - 2)
      ∷ number (total_pages - 1)
      ∷ number total_pages
      ∷ []
    else number 1
      ∷ ellipsis
      ∷ number (current_page - 1)
      ∷ number current_page
      ∷ number (current_page + 1)
      ∷ ellipsis
      ∷ number total_pages
      ∷ []

-- `items.slice((currentPage - 1) * itemsPerPage, currentPage * itemsPerPage)`
unfoldable pub page_slice {ℓ} : {A : Type ℓ} → ℕ → ℕ → List A → List A
page_slice current_page items_per_page items =
    take (current_page * items_per_page - (current_page - 1) * items_per_page)
      (drop ((current_page - 1) * items_per_page) items)
