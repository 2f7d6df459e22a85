-- ===== src/Audits/Steps.antt =====
-- frontend/src/pages/auditorClerk/AuditTransactions/AuditTransactions.jsx: what may happen on the page.
use hybrid_quantum_cryptogra.Prelude.{
  ◌≡◌, ◌⊎◌, ◌<◌, true, false, Option, some, List, ◌∷◌, ◌++◌, All,
}
use hybrid_quantum_cryptogra.Js.{Text}
use hybrid_quantum_cryptogra.Answers.{Answer}
use hybrid_quantum_cryptogra.Answers.Waiting.{World, sends, shows}
use hybrid_quantum_cryptogra.Audits.{
  Params, Field, Request, listing, statistics, details, Pagination, Page, initial_page,
  load_transactions, transactions_loaded, statistics_loaded, handle_view_details, details_loaded,
  handle_input, handle_apply_filters, handle_clear_filters, go_back, go_on, close_details,
}

abbrev pub Desk : (T D S : Type 0) → Type 0
Desk T D S = World (Page T D S) Request

-- A request that does not ask for the list.
abbrev pub IsOther : Request → Type 0
IsOther (listing params) = ⊥
IsOther statistics = Unit
IsOther (details id) = Unit

module _ {T D S : Type 0} where
  -- After the effects of the first rendering.
  unfoldable pub initial_world : Desk T D S
  unfolding initial_page load_transactions
  initial_world =
      let (page, requests) = load_transactions initial_page in
      record { page = page; waiting = statistics ∷ requests; sent = statistics ∷ requests }

  -- `server` is what the server has for a list's parameters. Where `Overtakes` is empty the lists come in
  -- in the order in which they were asked for.
  module _ (server : Params → Answer (Option (List T) × Option Pagination))
      (Overtakes : Type 0) where
    pub data Event (w : Desk T D S) : Desk T D S → Type 0 where
      enters : (field : Field) (value : Text) → Event w (sends (handle_input field value w.page) w)
      applies : w.page.loading ≡ false → Event w (sends (handle_apply_filters w.page) w)
      clears : Event w (sends (handle_clear_filters w.page) w)
      goes_back :
          (info : Pagination)
          → w.page.pagination ≡ some info
          → 1 < info.pages
          → info.has_prev ≡ true
          → Event w (sends (go_back w.page) w)
      goes_on :
          (info : Pagination)
          → w.page.pagination ≡ some info
          → 1 < info.pages
          → info.has_next ≡ true
          → Event w (sends (go_on w.page) w)
      views : (id : Text) → Event w (sends (handle_view_details id w.page) w)
      closes : Event w (shows (close_details w.page) w)
      -- Answers.
      lists :
          (params : Params) (before later : List Request)
          → w.waiting ≡ before ++ (listing params ∷ later)
          → All IsOther later ⊎ Overtakes
          → Event w (record w {
            page = transactions_loaded (server params) w.page;
            waiting = before ++ later;
          })
      counts :
          (reply : Answer S) (before later : List Request)
          → w.waiting ≡ before ++ (statistics ∷ later)
          → Event w (record w { page = statistics_loaded reply w.page; waiting = before ++ later })
      tells :
          (id : Text) (reply : Answer D) (before later : List Request)
          → w.waiting ≡ before ++ (details id ∷ later)
          → Event w (record w { page = details_loaded reply w.page; waiting = before ++ later })
