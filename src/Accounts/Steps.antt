-- ===== src/Accounts/Steps.antt =====
-- frontend/src/pages/manager/ManagerCustomers/ManagerCustomers.jsx: what may happen on the page. Requests
-- wait for the server, which answers them in any order.
use hybrid_quantum_cryptogra.Prelude.{
  ◌≡◌, Bool, true, false, Option, none, some, List, [], ◌∷◌, ◌++◌,
}
use hybrid_quantum_cryptogra.Js.{Text, lit}
use hybrid_quantum_cryptogra.Answers.{Answer}
use hybrid_quantum_cryptogra.Answers.Waiting.{World, sends, shows}
use hybrid_quantum_cryptogra.Accounts.{
  Account, SortConfig, Page, Request, listing, details, updating, forwarding, initial_page,
  load_accounts, accounts_loaded, handle_view_details, details_loaded, handle_status_change,
  status_changed, handle_forward_for_review, forwarded, details_shown, may_change,
  open_status_modal, open_forward_modal, can_change, can_forward,
}

-- What the two lists of a dialog offer.
pub data Status : Type 0 where
  unselected active limited : Status

abbrev pub status_text : Status → Text
status_text unselected = []
status_text active = lit "ACTIVE"
status_text limited = lit "LIMITED"

pub data Priority : Type 0 where
  low normal high urgent : Priority

abbrev pub priority_text : Priority → Text
priority_text low = lit "low"
priority_text normal = lit "normal"
priority_text high = lit "high"
priority_text urgent = lit "urgent"

abbrev pub Desk : Type 0 → Type 0
Desk Statistics = World (Page Statistics) Request

module _ {Statistics : Type 0} where
  unfoldable pub initial_world : Desk Statistics
  unfolding initial_page
  initial_world = record { page = initial_page; waiting = []; sent = [] }

  -- The dialogs lie over the table, so its buttons are there only without one.
  unfoldable pub is_covered : Page Statistics → Bool
  is_covered p = elim p.selected_customer [ none ↦ false | some c ↦ true ]

  -- `Told id reply` holds of the answers that may be given to a request for the details of an account.
  module _ (Told : Text → Answer Account → Type 0) where
    pub data Event (w : Desk Statistics) : Desk Statistics → Type 0 where
      loads : Event w (sends (load_accounts w.page) w)
      filters :
          (status account_type : Text)
          → Event w (
              sends
                (load_accounts
                  (record (w.page) { status_filter = status; account_type_filter = account_type }))
                w)
      searches : (query : Text) → Event w (shows (record (w.page) { query = query }) w)
      sorts : (config : SortConfig) → Event w (shows (record (w.page) { sort_config = config }) w)
      views :
          (id : Text)
          → is_covered w.page ≡ false
          → Event w (sends (handle_view_details id w.page) w)
      closes :
          (c : Account)
          → details_shown w.page ≡ some c
          → Event w (shows (record (w.page) { selected_customer = none }) w)
      opens_change :
          (c : Account)
          → details_shown w.page ≡ some c
          → may_change c ≡ true
          → Event w (shows (open_status_modal w.page) w)
      opens_forward :
          (c : Account)
          → details_shown w.page ≡ some c
          → Event w (shows (open_forward_modal w.page) w)
      picks_status :
          (status : Status)
          → Event w (
              shows
                (record (w.page) {
                  status_change_data = record (w.page.status_change_data) {
                    status = status_text status;
                  };
                })
                w)
      gives_reason :
          (reason : Text)
          → Event w (
              shows
                (record (w.page) {
                  status_change_data = record (w.page.status_change_data) { reason = reason };
                })
                w)
      picks_priority :
          (priority : Priority)
          → Event w (
              shows
                (record (w.page) {
                  forward_data = record (w.page.forward_data) { priority = priority_text priority };
                })
                w)
      explains :
          (reason : Text)
          → Event w (
              shows
                (record (w.page) {
                  forward_data = record (w.page.forward_data) { reason = reason };
                })
                w)
      cancels_change : Event w (shows (record (w.page) { show_status_modal = false }) w)
      cancels_forward : Event w (shows (record (w.page) { show_forward_modal = false }) w)
      confirms_change :
          can_change w.page ≡ true
          → w.page.show_status_modal ≡ true
          → is_covered w.page ≡ true
          → Event w (sends (handle_status_change w.page) w)
      confirms_forward :
          can_forward w.page ≡ true
          → w.page.show_forward_modal ≡ true
          → is_covered w.page ≡ true
          → Event w (sends (handle_forward_for_review w.page) w)
      -- Answers.
      lists :
          (status account_type : Option Text) (reply : Answer (List Account × Statistics))
          (before later : List Request)
          → w.waiting ≡ before ++ (listing status account_type ∷ later)
          → Event w (record w { page = accounts_loaded reply w.page; waiting = before ++ later })
      tells :
          (id : Text) (reply : Answer Account) (before later : List Request)
          → Told id reply
          → w.waiting ≡ before ++ (details id ∷ later)
          → Event w (record w { page = details_loaded reply w.page; waiting = before ++ later })
      updates :
          (id status reason : Text) (reply : Answer (Unit {0})) (before later : List Request)
          → w.waiting ≡ before ++ (updating id status reason ∷ later)
          → Event w
              (sends (status_changed status reply w.page) (record w { waiting = before ++ later }))
      forwards :
          (id reason priority : Text) (reply : Answer (Unit {0})) (before later : List Request)
          → w.waiting ≡ before ++ (forwarding id reason priority ∷ later)
          → Event w (sends (forwarded reply w.page) (record w { waiting = before ++ later }))
