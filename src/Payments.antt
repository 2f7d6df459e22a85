-- ===== src/Payments.antt =====
-- frontend/src/pages/customer/CreateTransaction/CreateTransaction.jsx: the form by which a customer sends
-- money, its checks, and what is sent; and what the dialog of TransactionConfirmModal.jsx shows of it. The
-- answers of the server are arguments.
--
-- The amount is the value of an input of type "number": empty, or a text that reads as a finite number,
-- which is given here by that number. Amounts in the answers of the server are numbers.
pub mod Handlers
pub mod Checks
pub mod Steps
pub mod Sending
pub mod Racing
pub mod Confirming
use hybrid_quantum_cryptogra.Prelude.{
  ℕ, Bool, true, false, not, ◌&&◌, Option, none, some, List, [], ◌∷◌, ltb, if◌then◌else◌, length,
  String,
}
use hybrid_quantum_cryptogra.Js.{Text, lit, text_eq, trim, is_empty, ℤ, pos, negsuc, gtb}
use hybrid_quantum_cryptogra.Validators.{is_required, validate_amount}

pub record FormData : Type 0 where
  pub to_account : Text
  pub amount : Option ℤ
  pub purpose : Text
  pub custom_purpose : Text
  pub manual_beneficiary_name : Text
  pub manual_bank_name : Text

pub record Beneficiary : Type 0 where
  pub id : Text
  pub account_number : Text
  pub beneficiary_name : Text
  pub bank_name : Text

pub record CustomerAccount : Type 0 where
  pub full_name : Text
  pub account_number : Text
  pub balance : ℤ

-- What `createTransaction` is given.
pub record Payload : Type 0 where
  pub to_account : Text
  pub amount : Option ℤ
  pub purpose : Text

pub record Page (Receipt : Type 0) : Type 0 where
  pub beneficiaries : List Beneficiary
  pub selected_beneficiary : Option Beneficiary
  pub customer_account : Option CustomerAccount
  pub use_manual_entry : Bool
  pub form_data : FormData
  pub loading_beneficiaries : Bool
  pub loading_account : Bool
  pub submitting : Bool
  pub error : Option Text
  pub show_confirm_modal : Bool
  pub show_receipt_modal : Bool
  pub completed_transaction : Option Receipt

abbrev pub purpose_options : List Text
purpose_options =
    lit "Payment for Services"
    ∷ lit "Gift"
    ∷ lit "Family Support"
    ∷ lit "Loan Repayment"
    ∷ lit "Business Transaction"
    ∷ lit "Others"
    ∷ []

unfoldable pub is_others : FormData → Bool
unfolding text_eq lit
is_others form = text_eq form.purpose (lit "Others")

-- The purpose as it is checked, and as it is sent.
unfoldable pub final_purpose : FormData → Text
unfolding is_others
final_purpose form = if is_others form then form.custom_purpose else form.purpose

unfoldable pub sent_purpose : FormData → Text
unfolding is_others trim
sent_purpose form = if is_others form then trim form.custom_purpose else form.purpose

-- TransactionConfirmModal.jsx: the purpose that the dialog shows, of the form that it is given.
unfoldable pub display_purpose : FormData → Text
unfolding text_eq lit
display_purpose form =
    if text_eq form.purpose (lit "Other") then form.custom_purpose else form.purpose

-- `if (failed) { setError(message); return false; }`
unfoldable pub complaint : Bool → String → Option Text
complaint failed message = if failed then some (lit message) else none

-- The first check that fails ends the validation.
unfoldable pub first_message : List (Option Text) → Option Text
first_message [] = none
first_message (some message ∷ checks) = some message
first_message (none ∷ checks) = first_message checks

unfoldable pub exceeds : Option ℤ → Option CustomerAccount → Bool
exceeds (some amount) (some account) = gtb amount account.balance
exceeds (some amount) none = false
exceeds none account = false

unfoldable pub has_account : Option CustomerAccount → Bool
has_account none = false
has_account (some account) = true

module _ {Receipt : Type 0} where
  unfoldable pub checks : Page Receipt → List (Option Text)
  checks p =
      is_required (some p.form_data.to_account) (lit "Receiver account")
      ∷ complaint (p.use_manual_entry && is_empty (trim p.form_data.manual_beneficiary_name))
          "Please enter beneficiary name"
      ∷ complaint (p.use_manual_entry && is_empty (trim p.form_data.manual_bank_name))
          "Please enter bank name"
      ∷ validate_amount p.form_data.amount
      ∷ complaint (is_empty p.form_data.purpose) "Please select a purpose"
      ∷ complaint (is_others p.form_data && is_empty (trim p.form_data.custom_purpose))
          "Please specify the purpose"
      ∷ complaint (ltb 240 (length (final_purpose p.form_data)))
          "Purpose must be 240 characters or fewer"
      ∷ complaint (exceeds p.form_data.amount p.customer_account) "Insufficient balance"
      ∷ []

  -- The message of the first check that fails, or `none` where the form passes.
  unfoldable pub validate_form : Page Receipt → Option Text
  unfolding checks first_message
  validate_form p = first_message (checks p)

  -- Whether the button that submits the form is enabled.
  unfoldable pub can_submit : Page Receipt → Bool
  unfolding exceeds has_account
  can_submit p =
      not p.submitting
      && has_account p.customer_account
      && not (exceeds p.form_data.amount p.customer_account)
