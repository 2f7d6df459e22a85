-- ===== src/Tests/Beneficiaries.antt =====
-- BeneficiaryManagement.jsx at concrete inputs.
use hybrid_quantum_cryptogra.Prelude.{ℕ, ◌≡◌, refl, true, none, some, List, [], ◌∷◌, All}
use hybrid_quantum_cryptogra.Js.{lit, is_empty, Result}
use hybrid_quantum_cryptogra.Roles.{truthy}
use hybrid_quantum_cryptogra.Beneficiaries.{
  Beneficiary, Mode, Request, updating, brief, Answer, answered, Listing, Dialog, Page, open_dialog,
  submit_data,
}
use hybrid_quantum_cryptogra.Beneficiaries.Handlers.{
  initial_page, open_edit_modal, handle_edit, edit_selected,
}
use hybrid_quantum_cryptogra.Beneficiaries.Steps.{Event, edit_submitted, Permitted, Event-Permitted}

abbrev bob : Beneficiary
bob = record {
  id = lit "B1";
  beneficiary_name = some (lit "Bob");
  account_number = some (lit "ACC9");
  bank_name = none;
  branch_code = none;
  ifsc_code = none;
  nickname = some (lit "bobby");
  description = none;
}

abbrev opened : Page ℕ
opened = open_edit_modal bob initial_page

abbrev dialog : Dialog
dialog = open_dialog Mode.edit (some bob)

abbrev listing : Answer (Listing ℕ)
listing = answered (record { beneficiaries = some (bob ∷ []); statistics = some 1 })

abbrev outcome : Page ℕ × Result (Unit {0}) × List Request
outcome = handle_edit (submit_data Mode.edit dialog.form_data) (answered tt) listing opened

dialog_open : opened.show_edit_modal ≡ true
unfolding open_edit_modal initial_page
dialog_open = refl

sent_brief : outcome.2 ≡ updating (lit "B1") (brief (lit "bobby") []) ∷ []
unfolding open_edit_modal initial_page handle_edit edit_selected submit_data open_dialog truthy
    is_empty lit
sent_brief = refl

submission : Event opened outcome.2 outcome.0
submission =
    edit_submitted dialog.form_data (answered tt) listing opened outcome.0 outcome.1 outcome.2
      dialog_open refl

Event-Permitted_example : All (Permitted opened) outcome.2
Event-Permitted_example = Event-Permitted opened outcome.0 outcome.2 submission
