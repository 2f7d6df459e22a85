-- ===== src/Pagination/Window.antt =====
-- The page numbers that are offered.
use hybrid_quantum_cryptogra.Prelude.{
  ℕ, zero, suc, ◌+◌, ◌-◌, ◌≤◌, ◌<◌, ◌≡◌, refl, ◌≢◌, ◌⊎◌, inl, inr, Bool-cases, leb, List, [], ◌∷◌,
  arith, some,
}
use hybrid_quantum_cryptogra.Pagination.{
  Entry, number, ellipsis, pages_from, get_page_numbers, handle_previous, handle_next,
}

-- The numbers rise, start after `low`, do not exceed `high`, and skip a page exactly at an
-- ellipsis: next to each other in the list, two numbers are consecutive.
abbrev pub Rises : (low : ℕ) (high : ℕ) → List Entry → Type 0
Rises low high [] = Unit
Rises low high (number n ∷ entries) = (n ≡ low + 1) × (n ≤ high) × Rises n high entries
Rises low high (ellipsis ∷ []) = ⊥
Rises low high (ellipsis ∷ ellipsis ∷ entries) = ⊥
Rises low high (ellipsis ∷ number n ∷ entries) = (low + 1 < n) × (n ≤ high) × Rises n high entries

abbrev pub Offers : ℕ → List Entry → Type 0
Offers page [] = ⊥
Offers page (number n ∷ entries) = (n ≡ page) ⊎ Offers page entries
Offers page (ellipsis ∷ entries) = Offers page entries

pages_from-Rises :
    (low count high : ℕ) → low + count ≤ high → Rises low high (pages_from (low + 1) count)
unfolding pages_from
pages_from-Rises low zero high h = tt
pages_from-Rises low (suc count) high h =
    (refl, omega arith, pages_from-Rises (low + 1) count high (omega arith))

pages_from-Offers :
    (from count page : ℕ) → from ≤ page → page < from + count → Offers page (pages_from from count)
unfolding pages_from
pages_from-Offers from zero page h k = omega arith
pages_from-Offers from (suc count) page h k =
    ground (arith, pages_from-Offers (from + 1) count page)

abbrev Complete : (current_page total_pages : ℕ) → List Entry → Type 0
Complete current_page total_pages entries =
    Rises 0 total_pages entries
    × Offers 1 entries
    × Offers total_pages entries
    × Offers current_page entries

window-Complete :
    (current_page total_pages : ℕ)
    → 1 ≤ current_page
    → current_page ≤ total_pages
    → Complete current_page total_pages (get_page_numbers current_page total_pages)
unfolding get_page_numbers
window-Complete current_page total_pages h k = elim (Bool-cases (leb total_pages 5)) [
  | inl few ↦ rw few (
    pages_from-Rises 0 total_pages total_pages (omega arith),
    pages_from-Offers 1 total_pages 1 (omega arith) (omega arith),
    pages_from-Offers 1 total_pages total_pages (omega arith) (omega arith),
    pages_from-Offers 1 total_pages current_page h (omega arith),
  )
  | inr many ↦ elim (Bool-cases (leb current_page 3)) [
    | inl near_start ↦ rw (many, near_start) (ground arith)
    | inr later ↦ elim (Bool-cases (leb (total_pages - 2) current_page)) [
      | inl near_end ↦ rw (many, later, near_end) (ground arith)
      | inr middle ↦ rw (many, later, middle) (ground arith)
    ]
  ]
]

-- For a current page in range, the pages on offer rise from 1 to the last page at most, skip a page exactly at an ellipsis, and hold the
-- first page, the last one and the current one.
pub get_page_numbers-Rises :
    (current_page total_pages : ℕ)
    → 1 ≤ current_page
    → current_page ≤ total_pages
    → Rises 0 total_pages (get_page_numbers current_page total_pages)
      × Offers 1 (get_page_numbers current_page total_pages)
      × Offers total_pages (get_page_numbers current_page total_pages)
      × Offers current_page (get_page_numbers current_page total_pages)
get_page_numbers-Rises current_page total_pages h k = window-Complete current_page total_pages h k

-- Wherever a button leads from a page in range, that page is in range too, and it is another one.
pub handlers_in_range :
    (current_page total_pages page : ℕ)
    → 1 ≤ current_page
    → current_page ≤ total_pages
    → (handle_previous current_page ≡ some page)
      ⊎ (handle_next current_page total_pages ≡ some page)
    → (1 ≤ page) × (page ≤ total_pages) × (page ≢ current_page)
unfolding handle_previous handle_next
handlers_in_range current_page total_pages page h k (inl e) = ground arith
handlers_in_range current_page total_pages page h k (inr e) = ground arith
