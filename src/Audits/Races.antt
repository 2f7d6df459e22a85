-- ===== src/Audits/Races.antt =====
-- frontend/src/pages/auditorClerk/AuditTransactions/AuditTransactions.jsx: an answer that is overtaken.
use hybrid_quantum_cryptogra.Prelude.{◌≡◌, ◌≢◌, refl, ◌∙◌, inr, Option, none, some, List, [], ◌∷◌}
use hybrid_quantum_cryptogra.Js.{Text, lit, text_eq, pos}
use hybrid_quantum_cryptogra.Answers.{Answer, answered, failed}
use hybrid_quantum_cryptogra.Answers.Waiting.{sends, Reach, here, next}
use hybrid_quantum_cryptogra.Audits.{
  Params, search, enter, listing, statistics, Pagination, Page, initial_page, no_filters, params_of,
  load_transactions, transactions_loaded, rerender, handle_input,
}
use hybrid_quantum_cryptogra.Audits.Steps.{Desk, initial_world, Event, enters, lists}

module _ {T D S : Type 0} where
  loaded_filters :
      (reply : Answer (Option (List T) × Option Pagination)) (p : Page T D S)
      → (transactions_loaded reply p).filters ≡ p.filters
  unfolding transactions_loaded
  loaded_filters (answered (found, pages)) p = refl
  loaded_filters (failed message) p = refl

  -- Whatever the auditor searches for, with no request for a list waiting the page may show the list that the
  -- server has without a search: where the answer to the first request comes in last.
  overtaken_shown :
      (server : Params → Answer (Option (List T) × Option Pagination)) (query : Text)
      (found : List T) (pages : Option Pagination)
      → query ≢ []
      → server (params_of no_filters (pos 1)) ≡ answered (some found, pages)
      → (w : Desk T D S) × Reach (Event server Unit) initial_world w
        × (w.waiting ≡ statistics ∷ [])
        × (w.page.filters ≡ enter search query no_filters)
        × (w.page.transactions ≡ found)
        × (w.page.error ≡ none)
  unfolding initial_world initial_page load_transactions transactions_loaded handle_input rerender
      enter no_filters sends text_eq lit
  overtaken_shown server [] found pages typed first = absurd (typed refl)
  overtaken_shown server (c ∷ s) found pages typed first = (
    _,
    next
        (next (next here (enters search (c ∷ s))) (
          lists (params_of (enter search (c ∷ s) no_filters) (pos 1)) []
            (statistics ∷ listing (params_of no_filters (pos 1)) ∷ []) refl (inr tt)))
        (lists (params_of no_filters (pos 1)) (statistics ∷ []) [] refl (inr tt)),
    refl,
    loaded_filters (server _) _ ∙ loaded_filters (server _) _,
    rw first refl,
    rw first refl,
  )
