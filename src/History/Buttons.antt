-- ===== src/History/Buttons.antt =====
-- frontend/src/pages/customer/TransactionHistory/TransactionHistory.jsx: where the buttons of the pages lead.
use hybrid_quantum_cryptogra.Prelude.{ℕ, ◌+◌, ◌-◌, ◌≤◌, ◌<◌, ◌≡◌, arith, min, leb, if◌then◌else◌}
use hybrid_quantum_cryptogra.History.{page_number}

-- Which of the buttons is that of the current page.
abbrev button_of : (total_pages current_page : ℕ) → ℕ
button_of total_pages current_page =
    if leb total_pages 5
    then current_page - 1
    else if leb current_page 3
    then current_page - 1
    else if leb (total_pages - 2) current_page
    then current_page + 4 - total_pages
    else 2

-- Where the current page is one of the pages, each of the at most five numbered buttons leads to one of the
-- pages, and one of them is that of the current page.
page_number_bounds :
    (total_pages current_page i : ℕ)
    → 1 ≤ current_page
    → current_page ≤ total_pages
    → i < min 5 total_pages
    → (1 ≤ page_number total_pages current_page i)
      × (page_number total_pages current_page i ≤ total_pages)
      × (button_of total_pages current_page < min 5 total_pages)
      × (page_number total_pages current_page (button_of total_pages current_page) ≡ current_page)
unfolding page_number
page_number_bounds total_pages current_page i low high h =
    (ground arith, ground arith, ground arith, ground arith)
