-- ===== src/Tests/Audits.antt =====
-- AuditTransactions.jsx at concrete inputs.
use hybrid_quantum_cryptogra.Prelude.{
  ℕ, ◌≡◌, refl, inl, true, false, Option, some, arith, List, [], ◌∷◌,
}
use hybrid_quantum_cryptogra.Js.{lit, text_eq, is_empty, pos, negsuc}
use hybrid_quantum_cryptogra.Answers.{Answer, answered}
use hybrid_quantum_cryptogra.Answers.Waiting.{World, sends, Reach, here, next}
use hybrid_quantum_cryptogra.Audits.{
  Params, text, number, search, status, enter, given, listing, statistics, Pagination, Page,
  no_filters, params_of, initial_page, load_transactions, transactions_loaded, handle_input,
  handle_apply_filters, go_back, rerender, same_filters, same_page,
}
use hybrid_quantum_cryptogra.Audits.Steps.{Desk, initial_world, Event, enters, goes_back, lists}
use hybrid_quantum_cryptogra.Audits.Freshness.{IsCurrent, Reach-IsCurrent}

abbrev first_page : Pagination
first_page = record { page = 1; pages = 2; total = 60; has_prev = false; has_next = true }

abbrev second_page : Pagination
second_page = record { page = 2; pages = 2; total = 60; has_prev = true; has_next = false }

-- It has the same three transactions for every request.
abbrev server : Params → Answer (Option (List ℕ) × Option Pagination)
server params = answered (some (3 ∷ 1 ∷ 2 ∷ []), some second_page)

audits : Unit {0}
unfolding no_filters enter given params_of initial_page load_transactions transactions_loaded
    handle_input handle_apply_filters go_back rerender same_filters same_page initial_world sends
    text_eq lit is_empty
audits = tt

-- A query is typed, the two lists come in in order, and the auditor goes back.
abbrev walk : (w : Desk ℕ ℕ ℕ) × Reach (Event server ⊥) initial_world w
unfolding audits
walk = (
  _,
  next
      (next
        (next (next here (enters search (lit "rent"))) (
          lists (params_of no_filters (pos 1))
            (listing (params_of (enter search (lit "rent") no_filters) (pos 1)) ∷ statistics ∷ [])
            [] refl (inl tt)))
        (lists (params_of (enter search (lit "rent") no_filters) (pos 1)) [] (statistics ∷ []) refl
          (inl (tt, tt))))
      (goes_back second_page refl (omega arith) refl),
)

Reach-IsCurrent_example : IsCurrent server (World.page walk.0) (World.waiting walk.0)
Reach-IsCurrent_example = Reach-IsCurrent server walk.1

-- The number of the page is below one then.
page_zero : (World.page walk.0).current_page ≡ pos 0
unfolding audits
page_zero = refl

page_negative : (go_back (World.page walk.0)).0.current_page ≡ negsuc 0
unfolding audits
page_negative = refl

filters_sent :
    params_of (enter status (lit "PENDING") (enter search (lit "rent") no_filters)) (pos 3)
    ≡ (lit "status", text (lit "PENDING"))
      ∷ (lit "search", text (lit "rent"))
      ∷ (lit "page", number (pos 3))
      ∷ (lit "per_page", number (pos 50))
      ∷ []
unfolding audits
filters_sent = refl

-- Applying the filters on another page than the first asks twice.
asked_twice :
    let p : Page ℕ ℕ ℕ = initial_page in
    (handle_apply_filters (record p { current_page = pos 3 })).1
    ≡ listing (params_of no_filters (pos 1)) ∷ listing (params_of no_filters (pos 3)) ∷ []
unfolding audits
asked_twice = refl
