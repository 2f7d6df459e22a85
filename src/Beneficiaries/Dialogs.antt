-- ===== src/Beneficiaries/Dialogs.antt =====
-- frontend/src/components/customer/BeneficiaryFormModal.jsx: what a submission that fails leaves behind.
use hybrid_quantum_cryptogra.Prelude.{◌≡◌, refl, Option, none, some, false, arith}
use hybrid_quantum_cryptogra.Js.{Text, lit, is_empty, throw, error}
use hybrid_quantum_cryptogra.Roles.{truthy}
use hybrid_quantum_cryptogra.Beneficiaries.{
  Beneficiary, Submission, Answer, failed, Listing, Dialog, Page, settle_dialog, dialog_error,
  failure, or_text,
}
use hybrid_quantum_cryptogra.Beneficiaries.Handlers.{handle_add, handle_edit, edit_selected}

-- The dialog shows a message that is not empty, and what was entered.
abbrev pub Complains : Dialog → Dialog → Type 0
Complains d d' =
    (d'.form_data ≡ d.form_data)
    × (d'.loading ≡ false)
    × ((message : Text) × (d'.error ≡ some message) × (is_empty message ≡ false))

or_text-given :
    (text : Option Text) (fallback : Text)
    → is_empty fallback ≡ false
    → is_empty (or_text text fallback) ≡ false
unfolding or_text truthy
or_text-given none fallback given = given
or_text-given (some text) fallback given = ground arith

dialog_error-given :
    (message : Text) → is_empty message ≡ false → dialog_error (error message) ≡ some message
unfolding dialog_error
dialog_error-given message given = rw given refl

failure-Complains :
    (message : Option Text) (fallback : Text) (d : Dialog)
    → is_empty fallback ≡ false
    → Complains d (settle_dialog (throw (error (or_text message fallback))) d)
unfolding settle_dialog
failure-Complains message fallback d given =
    let shown = or_text-given message fallback given in
    (
      refl,
      refl,
      (or_text message fallback, dialog_error-given (or_text message fallback) shown, shown),
    )

add_fallback : is_empty (lit "Failed to add beneficiary") ≡ false
unfolding lit is_empty
add_fallback = refl

edit_fallback : is_empty (lit "Failed to update beneficiary") ≡ false
unfolding lit is_empty
edit_fallback = refl

module _ {Statistics : Type 0} (message : Option Text) (listing : Answer (Listing Statistics)) where
  edit_selected-Complains :
      (selected : Option Beneficiary) (form : Submission) (p : Page Statistics) (d : Dialog)
      → ((edit_selected selected form (failed message) listing p).0 ≡ p)
        × Complains d (settle_dialog (edit_selected selected form (failed message) listing p).1 d)
  unfolding edit_selected failure
  edit_selected-Complains none form p d =
      (refl, failure-Complains none (lit "Failed to update beneficiary") d edit_fallback)
  edit_selected-Complains (some b) form p d =
      (refl, failure-Complains message (lit "Failed to update beneficiary") d edit_fallback)

  -- Where the server refuses a new beneficiary or a change, whatever message it sends, the page stays as it
  -- is, with the dialog open, and the dialog keeps what was entered and shows a message that is not empty.
  failed_Complains :
      (form : Submission) (p : Page Statistics) (d : Dialog)
      → ((handle_add form (failed message) listing p).0 ≡ p)
        × Complains d (settle_dialog (handle_add form (failed message) listing p).1 d)
        × ((handle_edit form (failed message) listing p).0 ≡ p)
        × Complains d (settle_dialog (handle_edit form (failed message) listing p).1 d)
  unfolding handle_add handle_edit failure
  failed_Complains form p d =
      let (kept, complains) = edit_selected-Complains p.selected_beneficiary form p d in
      (
        refl,
        failure-Complains message (lit "Failed to add beneficiary") d add_fallback,
        kept,
        complains,
      )
