-- ===== src/Kyc/Steps.antt =====
-- frontend/src/pages/manager/KYCVerification/KYCVerification.jsx: what may happen on the page. Requests wait
-- for the server, which answers them in any order.
use mathlib.Core.List.{Memᴰ}
use hybrid_quantum_cryptogra.Prelude.{
  ◌≡◌, Bool, true, false, ◌||◌, Option, none, some, List, [], ◌∷◌, ◌++◌,
}
use hybrid_quantum_cryptogra.Js.{Text}
use hybrid_quantum_cryptogra.Answers.{Answer}
use hybrid_quantum_cryptogra.Answers.Waiting.{World, sends, shows}
use hybrid_quantum_cryptogra.Kyc.{
  Customer, Action, Page, Request, listing, statistics, details, verifying, rejecting, is_pending,
  initial_page, filtered_customers, load_customers, customers_loaded, statistics_loaded,
  load_customer_details, details_loaded, close_details, open_modal, cancel_modal, verified,
  rejected, confirm, enter_modal, shown_details,
}

abbrev pub Desk : Type 0 → Type 0
Desk Statistics = World (Page Statistics) Request

is_some : {A : Type 0} → Option A → Bool
is_some none = false
is_some (some a) = true

module _ {Statistics : Type 0} where
  unfoldable pub initial_desk : Desk Statistics
  unfolding initial_page
  initial_desk = record { page = initial_page; waiting = []; sent = [] }

  -- A dialog lies over the table.
  unfoldable pub is_covered : Page Statistics → Bool
  unfolding is_some
  is_covered p = is_some p.selected_customer || is_some p.action_modal

  -- `Told id reply` holds of the answers that may be given to a request for the details of a customer.
  module _ (Told : Text → Answer Customer → Type 0) where
    pub data Event (w : Desk Statistics) : Desk Statistics → Type 0 where
      refreshes : Event w (sends (load_customers w.page) w)
      filters :
          (status : Text)
          → Event w (sends (load_customers (record (w.page) { status_filter = status })) w)
      searches : (query : Text) → Event w (shows (record (w.page) { search_query = query }) w)
      selects :
          (c : Customer)
          → is_covered w.page ≡ false
          → Memᴰ c (filtered_customers w.page)
          → Event w (sends (load_customer_details c w.page) w)
      closes : Event w (shows (close_details w.page) w)
      decides_listed :
          (action : Action) (c : Customer)
          → is_covered w.page ≡ false
          → Memᴰ c (filtered_customers w.page)
          → is_pending c ≡ true
          → Event w (shows (open_modal action c w.page) w)
      decides_shown :
          (action : Action) (c found : Customer)
          → w.page.selected_customer ≡ some c
          → shown_details w.page ≡ some found
          → is_pending found ≡ true
          → Event w (shows (close_details (open_modal action c w.page)) w)
      enters : (text : Text) → Event w (shows (enter_modal text w.page) w)
      cancels : Event w (shows (cancel_modal w.page) w)
      confirms : Event w (sends (confirm w.page) w)
      -- Answers.
      lists :
          (status : Option Text) (reply : Answer (List Customer)) (before later : List Request)
          → w.waiting ≡ before ++ (listing status ∷ later)
          → Event w (record w { page = customers_loaded reply w.page; waiting = before ++ later })
      counts :
          (reply : Answer Statistics) (before later : List Request)
          → w.waiting ≡ before ++ (statistics ∷ later)
          → Event w (record w { page = statistics_loaded reply w.page; waiting = before ++ later })
      tells :
          (id : Text) (reply : Answer Customer) (before later : List Request)
          → Told id reply
          → w.waiting ≡ before ++ (details id ∷ later)
          → Event w (record w { page = details_loaded reply w.page; waiting = before ++ later })
      verifies :
          (id remarks : Text) (reply : Answer (Unit {0})) (before later : List Request)
          → w.waiting ≡ before ++ (verifying id remarks ∷ later)
          → Event w (sends (verified reply w.page) (record w { waiting = before ++ later }))
      rejects :
          (id reason : Text) (reply : Answer (Unit {0})) (before later : List Request)
          → w.waiting ≡ before ++ (rejecting id reason ∷ later)
          → Event w (sends (rejected reply w.page) (record w { waiting = before ++ later }))
