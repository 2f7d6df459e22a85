-- ===== src/Kyc/Races.antt =====
-- frontend/src/pages/manager/KYCVerification/KYCVerification.jsx: an answer that comes in late.
use mathlib.Core.List.{Memᴰ}
use hybrid_quantum_cryptogra.Prelude.{◌≡◌, ◌≢◌, some, refl, true, none, [], ◌∷◌}
use hybrid_quantum_cryptogra.Js.{Text, lit, text_eq, is_empty}
use hybrid_quantum_cryptogra.Answers.{Answer, answered, failed}
use hybrid_quantum_cryptogra.Answers.Waiting.{sends, shows, Reach, here, next}
use hybrid_quantum_cryptogra.Kyc.{
  Customer, verify, statistics, details, verifying, is_pending, initial_page, filtered_customers,
  load_customers, customers_loaded, load_customer_details, details_loaded, close_details,
  open_modal, handle_verify, confirm, shown_details,
}
use hybrid_quantum_cryptogra.Kyc.Steps.{
  Desk, initial_desk, is_covered, Event, refreshes, selects, closes, decides_shown, confirms, lists,
  tells,
}

-- The server tells of a customer what is stored under the customer's id.
abbrev pub IsHonest : Text → Answer Customer → Type 0
IsHonest id (answered c) = c.id ≡ id
IsHonest id (failed message) = Unit

module _ {Statistics : Type 0} where
  -- With a server that answers for the customer asked about, and of two different customers, the manager can
  -- come to where the dialog of the second one shows the details of the first, the request for the second's
  -- details still waiting, whatever the standing of the second; the buttons there, which the first one's
  -- standing enables, verify the second.
  pub verify_unseen :
      (a b : Customer)
      → is_pending a ≡ true
      → a.id ≢ b.id
      → (u : Desk Statistics) × Reach (Event IsHonest) initial_desk u
        × (u.page.selected_customer ≡ some b)
        × (shown_details u.page ≡ some a)
        × (u.waiting ≡ details b.id ∷ statistics ∷ [])
        × (let v = shows (close_details (open_modal verify b u.page)) u in
            let w = sends (confirm v.page) v in
            Event IsHonest u v × Event IsHonest v w × (w.sent ≡ verifying b.id [] ∷ u.sent))
  unfolding initial_desk initial_page sends shows load_customers customers_loaded filtered_customers
      load_customer_details details_loaded close_details open_modal handle_verify confirm
      shown_details is_covered is_empty text_eq lit
  verify_unseen a b pending different = (
    _,
    next
        (next
          (next
            (next
              (next (next here refreshes)
                (lists none (answered (a ∷ b ∷ [])) [] (statistics ∷ []) refl))
              (selects a refl (Memᴰ.head refl)))
            closes)
          (selects b refl (Memᴰ.tail (Memᴰ.head refl))))
        (tells a.id (answered a) (details b.id ∷ []) (statistics ∷ []) refl refl),
    refl,
    refl,
    refl,
    (decides_shown verify b a refl refl pending, confirms, refl),
  )
