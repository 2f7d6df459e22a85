-- ===== src/Payments/Steps.antt =====
-- frontend/src/pages/customer/CreateTransaction/CreateTransaction.jsx: what may happen to the page. While the
-- dialog that asks to confirm is shown it covers the form, and only its two buttons act; answers with a
-- beneficiary come in at any time. A confirmed transaction is one step up to its end, since the dialog's
-- buttons are disabled while it is sent, and what is sent is fixed at its start; an answer with a beneficiary
-- that comes in while it is sent is not among the steps. The account is loaded once at the start.
use hybrid_quantum_cryptogra.Prelude.{
  ◌≡◌, ◌⊎◌, true, false, Option, none, some, List, [], ◌∷◌, ◌++◌,
}
use hybrid_quantum_cryptogra.Js.{Text, ℤ}
use hybrid_quantum_cryptogra.Payments.{Beneficiary, Payload, Page, can_submit}
use hybrid_quantum_cryptogra.Payments.Handlers.{
  Holder, Overview, Answer, Asked, Change, load_customer_account, load_beneficiaries,
  select_answered, handle_beneficiary_select, handle_toggle_manual_entry, handle_change,
  handle_quick_amount, handle_submit, handle_confirm_transaction, handle_cancel_confirm,
  handle_close_receipt, initial_page,
}

-- The page, and the requests for beneficiaries that wait for an answer.
pub record Desk (Receipt : Type 0) : Type 0 where
  pub page : Page Receipt
  pub waiting : List Asked

module _ {Receipt : Type 0} where
  unfoldable pub initial_desk : Desk Receipt
  unfolding initial_page
  initial_desk = record { page = initial_page; waiting = [] }

  abbrev pub shows : Page Receipt → Desk Receipt → Desk Receipt
  shows p w = record w { page = p }

  -- A page with what it has asked for.
  abbrev pub asks : Page Receipt × Option Asked → Desk Receipt → Desk Receipt
  asks (p, none) w = record w { page = p }
  asks (p, some asked) w = record { page = p; waiting = asked ∷ w.waiting }

-- Where `Overtaken` is empty no answer with a beneficiary comes in while the dialog is shown.
module _ {Receipt : Type 0} (user : Option Holder) (Overtaken : Type 0) where
  -- An event of the page: the state before, what is sent, and the state after.
  pub data Event (w : Desk Receipt) : Option Payload → Desk Receipt → Type 0 where
    account_loaded :
        (reply : Answer (Option Overview))
        → w.page.loading_account ≡ true
        → Event w none (shows (load_customer_account user reply w.page) w)
    beneficiaries_loaded :
        (reply : Answer (Option (List Beneficiary)))
        → Event w none (shows (load_beneficiaries reply w.page) w)
    beneficiary_selected :
        (id : Text)
        → w.page.show_confirm_modal ≡ false
        → Event w none (asks (handle_beneficiary_select id w.page) w)
    beneficiary_answered :
        (asked : Asked) (reply : Answer Beneficiary) (before later : List Asked)
        → w.waiting ≡ before ++ (asked ∷ later)
        → (w.page.show_confirm_modal ≡ false) ⊎ Overtaken
        → Event w none
            (record { page = select_answered asked reply w.page; waiting = before ++ later })
    entry_toggled :
        w.page.show_confirm_modal ≡ false
        → Event w none (shows (handle_toggle_manual_entry w.page) w)
    field_changed :
        (change : Change)
        → w.page.show_confirm_modal ≡ false
        → Event w none (shows (handle_change change w.page) w)
    quick_amount :
        (value : ℤ)
        → w.page.show_confirm_modal ≡ false
        → Event w none (shows (handle_quick_amount value w.page) w)
    submitted :
        w.page.show_confirm_modal ≡ false
        → can_submit w.page ≡ true
        → Event w none (shows (handle_submit w.page) w)
    confirmed :
        (reply : Answer Receipt) (overview : Answer (Option Overview))
        → w.page.show_confirm_modal ≡ true
        → Event w
            (some (handle_confirm_transaction user reply overview w.page).1)
            (shows (handle_confirm_transaction user reply overview w.page).0 w)
    cancelled :
        w.page.show_confirm_modal ≡ true → Event w none (shows (handle_cancel_confirm w.page) w)
    receipt_closed : Event w none (shows (handle_close_receipt w.page) w)

  -- The states that events lead to from the start.
  pub data Reach : Desk Receipt → Type 0 where
    start : Reach initial_desk
    after : {w v : Desk Receipt} {sent : Option Payload} → Reach w → Event w sent v → Reach v
