-- ===== src/Beneficiaries/Steps.antt =====
-- frontend/src/pages/customer/BeneficiaryManagement/BeneficiaryManagement.jsx: what may happen to the page,
-- and what it sends.
use hybrid_quantum_cryptogra.Prelude.{
  ℕ, ◌≡◌, refl, sym, ap, subst, true, false, Option, none, some, List, [], All, arith,
}
use hybrid_quantum_cryptogra.Js.{Result}
use hybrid_quantum_cryptogra.Beneficiaries.{
  Beneficiary, FormData, add, edit, whole, brief, Request, adding, updating, deleting, Answer,
  answered, failed, Listing, Page, submit_data, confirm_shown,
}
use hybrid_quantum_cryptogra.Beneficiaries.Handlers.{
  load_beneficiaries, handle_add, edit_selected, handle_edit, handle_delete, delete_shown,
  open_edit_modal, open_delete_modal,
}

module _ {Statistics : Type 0} where
  -- An event of the page: the state before, what is sent, and the state after. A dialog sends only while it
  -- is there.
  pub data Event : Page Statistics → List Request → Page Statistics → Type 0 where
    loaded :
        (listing : Answer (Listing Statistics)) (p q : Page Statistics)
        → q ≡ load_beneficiaries listing p
        → Event p [] q
    add_opened : (p q : Page Statistics) → q ≡ record p { show_add_modal = true } → Event p [] q
    add_closed : (p q : Page Statistics) → q ≡ record p { show_add_modal = false } → Event p [] q
    edit_opened : (b : Beneficiary) (p q : Page Statistics) → q ≡ open_edit_modal b p → Event p [] q
    edit_closed :
        (p q : Page Statistics)
        → q ≡ record p { show_edit_modal = false; selected_beneficiary = none }
        → Event p [] q
    delete_opened :
        (b : Beneficiary) (p q : Page Statistics) → q ≡ open_delete_modal b p → Event p [] q
    delete_closed :
        (p q : Page Statistics)
        → q ≡ record p { show_delete_modal = false; selected_beneficiary = none }
        → Event p [] q
    page_chosen :
        (page : ℕ) (p q : Page Statistics) → q ≡ record p { current_page = page } → Event p [] q
    add_submitted :
        (form : FormData) (reply : Answer (Unit {0})) (listing : Answer (Listing Statistics))
        (p q : Page Statistics) (ended : Result (Unit {0})) (sent : List Request)
        → p.show_add_modal ≡ true
        → (q, ended, sent) ≡ handle_add (submit_data add form) reply listing p
        → Event p sent q
    edit_submitted :
        (form : FormData) (reply : Answer (Unit {0})) (listing : Answer (Listing Statistics))
        (p q : Page Statistics) (ended : Result (Unit {0})) (sent : List Request)
        → p.show_edit_modal ≡ true
        → (q, ended, sent) ≡ handle_edit (submit_data edit form) reply listing p
        → Event p sent q
    deleted :
        (reply : Answer (Unit {0})) (listing : Answer (Listing Statistics)) (p q : Page Statistics)
        (sent : List Request)
        → delete_shown p ≡ true
        → (q, sent) ≡ handle_delete reply listing p
        → Event p sent q

  -- A new beneficiary is sent whole; of one that is there, the selected one, only the nickname and the
  -- description; and no deletion is sent.
  abbrev pub Permitted : Page Statistics → Request → Type 0
  Permitted p (adding (whole form)) = Unit
  Permitted p (adding (brief nickname description)) = ⊥
  Permitted p (updating id (brief nickname description)) =
      (b : Beneficiary) × (p.selected_beneficiary ≡ some b) × (b.id ≡ id)
  Permitted p (updating id (whole form)) = ⊥
  Permitted p (deleting id) = ⊥

  handle_add-Permitted :
      (form : FormData) (reply : Answer (Unit {0})) (listing : Answer (Listing Statistics))
      (p : Page Statistics)
      → All (Permitted p) (handle_add (submit_data add form) reply listing p).2
  unfolding handle_add submit_data
  handle_add-Permitted form (answered finished) listing p = (tt, tt)
  handle_add-Permitted form (failed message) listing p = (tt, tt)

  edit_selected-Permitted :
      (selected : Option Beneficiary) (form : FormData) (reply : Answer (Unit {0}))
      (listing : Answer (Listing Statistics)) (p : Page Statistics)
      → p.selected_beneficiary ≡ selected
      → All (Permitted p) (edit_selected selected (submit_data edit form) reply listing p).2
  unfolding edit_selected submit_data
  edit_selected-Permitted none form reply listing p e = tt
  edit_selected-Permitted (some b) form (answered finished) listing p e = ((b, e, refl), tt)
  edit_selected-Permitted (some b) form (failed message) listing p e = ((b, e, refl), tt)

  delete_shown-false : (p : Page Statistics) → delete_shown p ≡ false
  unfolding delete_shown confirm_shown
  delete_shown-false p = ground arith

  -- Every request of the page is one that is permitted; so no event sends a deletion, since the dialog that
  -- asks to confirm it is never there.
  pub Event-Permitted :
      (p q : Page Statistics) (sent : List Request) → Event p sent q → All (Permitted p) sent
  unfolding handle_edit
  Event-Permitted p q sent event = allowed event
    where
      allowed :
          {p q : Page Statistics} {sent : List Request} → Event p sent q → All (Permitted p) sent
      allowed (loaded listing p q e) = tt
      allowed (add_opened p q e) = tt
      allowed (add_closed p q e) = tt
      allowed (edit_opened b p q e) = tt
      allowed (edit_closed p q e) = tt
      allowed (delete_opened b p q e) = tt
      allowed (delete_closed p q e) = tt
      allowed (page_chosen page p q e) = tt
      allowed (add_submitted form reply listing p q ended sent shown e) =
          subst (All (Permitted p)) (sym (ap (λ r. r.2) e))
            (handle_add-Permitted form reply listing p)
      allowed (edit_submitted form reply listing p q ended sent shown e) =
          subst (All (Permitted p)) (sym (ap (λ r. r.2) e))
            (edit_selected-Permitted p.selected_beneficiary form reply listing p refl)
      allowed (deleted reply listing p q sent shown e) = cc (delete_shown-false p)
