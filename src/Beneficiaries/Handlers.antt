-- ===== src/Beneficiaries/Handlers.antt =====
-- frontend/src/pages/customer/BeneficiaryManagement/BeneficiaryManagement.jsx: the handlers of the page. Each
-- gives the page afterwards, how it ends where that matters, and what was sent.
use mathlib.Core.Option
use hybrid_quantum_cryptogra.Prelude.{Bool, true, false, ◌&&◌, Option, none, some, List, [], ◌∷◌}
use hybrid_quantum_cryptogra.Js.{lit, Result, ok}
use hybrid_quantum_cryptogra.Beneficiaries.{
  Beneficiary, Submission, Request, adding, updating, deleting, Notice, good, problem, Answer,
  answered, failed, Listing, Page, or_text, failure, has_selection, confirm_shown,
}

module _ {Statistics : Type 0} where
  unfoldable pub initial_page : Page Statistics
  initial_page = record {
    beneficiaries = [];
    statistics = none;
    loading = true;
    current_page = 1;
    show_add_modal = false;
    show_edit_modal = false;
    show_delete_modal = false;
    selected_beneficiary = none;
    notices = [];
  }

  unfoldable pub notify : Notice → Page Statistics → Page Statistics
  notify notice p = record p { notices = notice ∷ p.notices }

  unfoldable pub load_beneficiaries :
      Answer (Listing Statistics) → Page Statistics → Page Statistics
  load_beneficiaries (answered found) p = record p {
    beneficiaries = Option.get_or found.beneficiaries [];
    statistics = found.statistics;
    loading = false;
  }
  load_beneficiaries (failed message) p =
      notify (problem (or_text message (lit "Failed to load beneficiaries")))
        (record p { loading = false })

  -- Whether the dialog that asks to confirm a deletion is there; the page hands it no user.
  unfoldable pub delete_shown : Page Statistics → Bool
  delete_shown p =
      p.show_delete_modal
      && has_selection p.selected_beneficiary
      && confirm_shown p.show_delete_modal none

  unfoldable pub handle_add :
      Submission
      → Answer (Unit {0})
      → Answer (Listing Statistics)
      → Page Statistics
      → Page Statistics × Result (Unit {0}) × List Request
  handle_add form (answered finished) listing p = (
    load_beneficiaries listing (record (notify (good (lit "Beneficiary added successfully!")) p) {
      show_add_modal = false;
    }),
    ok tt,
    adding form ∷ [],
  )
  handle_add form (failed message) listing p =
      (p, failure message "Failed to add beneficiary", adding form ∷ [])

  -- With no beneficiary selected reading its `id` throws, which the handler catches.
  unfoldable pub edit_selected :
      Option Beneficiary
      → Submission
      → Answer (Unit {0})
      → Answer (Listing Statistics)
      → Page Statistics
      → Page Statistics × Result (Unit {0}) × List Request
  edit_selected none form reply listing p = (p, failure none "Failed to update beneficiary", [])
  edit_selected (some b) form (failed message) listing p =
      (p, failure message "Failed to update beneficiary", updating b.id form ∷ [])
  edit_selected (some b) form (answered finished) listing p = (
    load_beneficiaries listing (record (notify (good (lit "Beneficiary updated successfully!")) p) {
      show_edit_modal = false;
      selected_beneficiary = none;
    }),
    ok tt,
    updating b.id form ∷ [],
  )

  unfoldable pub handle_edit :
      Submission
      → Answer (Unit {0})
      → Answer (Listing Statistics)
      → Page Statistics
      → Page Statistics × Result (Unit {0}) × List Request
  handle_edit form reply listing p = edit_selected p.selected_beneficiary form reply listing p

  unfoldable pub delete_selected :
      Option Beneficiary
      → Answer (Unit {0})
      → Answer (Listing Statistics)
      → Page Statistics
      → Page Statistics × List Request
  delete_selected none reply listing p =
      (notify (problem (lit "Failed to delete beneficiary")) p, [])
  delete_selected (some b) (failed message) listing p = (
    notify (problem (or_text message (lit "Failed to delete beneficiary"))) p,
    deleting b.id ∷ [],
  )
  delete_selected (some b) (answered finished) listing p = (
    load_beneficiaries listing (record (notify (good (lit "Beneficiary deleted successfully!")) p) {
      show_delete_modal = false;
      selected_beneficiary = none;
    }),
    deleting b.id ∷ [],
  )

  unfoldable pub handle_delete :
      Answer (Unit {0})
      → Answer (Listing Statistics)
      → Page Statistics
      → Page Statistics × List Request
  handle_delete reply listing p = delete_selected p.selected_beneficiary reply listing p

  unfoldable pub open_edit_modal : Beneficiary → Page Statistics → Page Statistics
  open_edit_modal b p = record p { selected_beneficiary = some b; show_edit_modal = true }

  unfoldable pub open_delete_modal : Beneficiary → Page Statistics → Page Statistics
  open_delete_modal b p = record p { selected_beneficiary = some b; show_delete_modal = true }
