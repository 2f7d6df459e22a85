-- ===== src/Accounts/Races.antt =====
-- frontend/src/pages/manager/ManagerCustomers/ManagerCustomers.jsx: two accounts looked at in a row.
use hybrid_quantum_cryptogra.Prelude.{◌≡◌, ◌≢◌, some, refl, true, false, [], ◌∷◌}
use hybrid_quantum_cryptogra.Js.{Text, lit, is_empty}
use hybrid_quantum_cryptogra.Answers.{Answer, answered, failed}
use hybrid_quantum_cryptogra.Accounts.{
  Account, details, updating, initial_page, handle_view_details, details_loaded,
  handle_status_change, change_selected, may_change, open_status_modal, empty_change, empty_forward,
  details_shown, can_change,
}
use hybrid_quantum_cryptogra.Answers.Waiting.{sends, shows, Reach, here, next}
use hybrid_quantum_cryptogra.Accounts.Steps.{
  Desk, Event, active, initial_world, is_covered, views, tells, opens_change, picks_status,
  confirms_change,
}

-- The server tells of an account what is stored under its id.
abbrev pub IsHonest : Text → Answer Account → Type 0
IsHonest id (answered c) = c.customer_id ≡ id
IsHonest id (failed message) = Unit

module _ {Statistics : Type 0} where
  -- With a server that answers for the account asked about, and of two different accounts, one whose details
  -- offer to change the status and one, frozen, whose details do not: the manager can come to where the
  -- dialog for a change of status is open over the frozen one, and the change is sent for it.
  pub change_frozen :
      (a b : Account)
      → may_change a ≡ true
      → may_change b ≡ false
      → a.customer_id ≢ b.customer_id
      → (u : Desk Statistics) × Reach (Event IsHonest) initial_world u
        × (u.page.selected_customer ≡ some b)
        × (u.page.show_status_modal ≡ true)
        × (let w = sends (handle_status_change u.page) u in
            Event IsHonest u w × (w.sent ≡ updating b.customer_id (lit "ACTIVE") [] ∷ u.sent))
  unfolding initial_world initial_page sends shows handle_view_details details_loaded
      open_status_modal empty_change empty_forward handle_status_change change_selected is_covered
      details_shown can_change is_empty lit
  change_frozen a b allowed frozen different = (
    _,
    next
        (next
          (next
            (next (next (next here (views a.customer_id refl)) (views b.customer_id refl))
              (tells a.customer_id (answered a) (details b.customer_id ∷ []) [] refl refl))
            (opens_change a refl allowed))
          (picks_status active))
        (tells b.customer_id (answered b) [] [] refl refl),
    refl,
    refl,
    (confirms_change refl refl refl, refl),
  )
