-- ===== src/Payments/Confirming.antt =====
-- frontend/src/pages/customer/CreateTransaction/CreateTransaction.jsx: what a confirmation leaves behind,
-- and what the dialog of frontend/src/components/customer/TransactionConfirmModal.jsx showed before.
use mathlib.Core.Option
use hybrid_quantum_cryptogra.Prelude.{◌≡◌, refl, true, false, Option, none, some}
use hybrid_quantum_cryptogra.Js.{Text, lit, trim, is_empty}
use hybrid_quantum_cryptogra.Payments.{validate_form, FormData, Page, sent_purpose, display_purpose}
use hybrid_quantum_cryptogra.Payments.Handlers.{Answer, answered, failed, payload_of, handle_submit}

-- How a page is left by a confirmation. After an answer the receipt is shown, and another submission is
-- refused before a dialog is shown. After a failure a message that is not empty is shown, and if the form
-- passed the checks, another submission shows the dialog again, for the same payment.
abbrev pub Settled : {Receipt : Type 0} → Answer Receipt → Page Receipt → Page Receipt → Type 0
Settled (answered receipt) p q =
    (q.show_confirm_modal ≡ false)
    × (q.completed_transaction ≡ some receipt)
    × (Page.show_confirm_modal (handle_submit q) ≡ false)
Settled (failed failure) p q =
    (q.show_confirm_modal ≡ false)
    × ((message : Text) × (q.error ≡ some message) × (is_empty message ≡ false))
    × (validate_form p ≡ none
        → (Page.show_confirm_modal (handle_submit q) ≡ true)
          × (payload_of (handle_submit q) ≡ payload_of p))

-- For the purpose "Others" the dialog shows that word, and what is sent is the purpose that was entered,
-- trimmed.
pub display_purpose-sent_purpose :
    (form : FormData)
    → form.purpose ≡ lit "Others"
    → (display_purpose form ≡ lit "Others") × (sent_purpose form ≡ trim form.custom_purpose)
unfolding display_purpose sent_purpose
display_purpose-sent_purpose form others = (rw others refl, rw others refl)
