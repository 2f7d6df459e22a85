-- ===== src/Payments/Handlers.antt =====
-- frontend/src/pages/customer/CreateTransaction/CreateTransaction.jsx: the handlers of the page.
use mathlib.Core.Option
use hybrid_quantum_cryptogra.Prelude.{
  true, false, not, Option, none, some, List, [], ◌∷◌, if◌then◌else◌,
}
use hybrid_quantum_cryptogra.Js.{Text, lit, text_eq, trim, is_empty, ℤ, pos, or_number}
use hybrid_quantum_cryptogra.Roles.{truthy}
use hybrid_quantum_cryptogra.Payments.{
  FormData, Beneficiary, CustomerAccount, Payload, Page, validate_form, sent_purpose,
}

-- What the page reads of the user of `useAuth`.
pub record Holder : Type 0 where
  pub username : Option Text
  pub account_number : Option Text
  pub balance : Option ℤ

pub record Account : Type 0 where
  pub account_number : Text
  pub balance : Option ℤ

pub record Overview : Type 0 where
  pub accounts : Option (List Account)
  pub account_balance : Option ℤ

-- A call of the server that failed: the message in the response, if any, and that of the error.
pub record Failure : Type 0 where
  pub response_message : Option Text
  pub message : Option Text

pub data Answer (A : Type 0) : Type 0 where
  answered : A → Answer A
  failed : Failure → Answer A

shown_name : Option Text → Text
unfolding truthy
shown_name username = Option.get_or (truthy username) (lit "Customer")

-- The account that is shown where the server names none.
account_of : Option Holder → Option ℤ → Option CustomerAccount → Option CustomerAccount
unfolding shown_name truthy or_number
account_of none account_balance old = old
account_of (some user) account_balance old = some (record {
  full_name = shown_name user.username;
  account_number = Option.get_or (truthy user.account_number) (lit "N/A");
  balance = or_number account_balance (or_number user.balance (pos 0));
})

username_of : Option Holder → Option Text
username_of none = none
username_of (some user) = user.username

primary_of : Option (List Account) → Option Account
primary_of (some (account ∷ accounts)) = some account
primary_of (some []) = none
primary_of none = none

account_from : Option Holder → Overview → Option CustomerAccount → Option CustomerAccount
unfolding primary_of account_of username_of shown_name or_number
account_from user overview old = elim (primary_of overview.accounts) [
  | some account ↦ some (record {
    full_name = shown_name (username_of user);
    account_number = account.account_number;
    balance = or_number account.balance (or_number overview.account_balance (pos 0));
  })
  | none ↦ account_of user overview.account_balance old
]

no_amount : Option ℤ
no_amount = none

read_account :
    Option Holder → Answer (Option Overview) → Option CustomerAccount → Option CustomerAccount
unfolding account_from account_of no_amount
read_account user (answered (some overview)) old = account_from user overview old
read_account user (answered none) old = account_of user no_amount old
read_account user (failed failure) old = account_of user no_amount old

-- `response.beneficiaries || []`
read_beneficiaries : Answer (Option (List Beneficiary)) → List Beneficiary → List Beneficiary
read_beneficiaries (answered (some found)) old = found
read_beneficiaries (answered none) old = []
read_beneficiaries (failed failure) old = old

-- A request for a beneficiary, with the form and the list of the rendering that sent it.
pub record Asked : Type 0 where
  pub id : Text
  pub form_data : FormData
  pub beneficiaries : List Beneficiary

-- `list.find(b => b.id === id)`
pub find_by_id : Text → List Beneficiary → Option Beneficiary
find_by_id id [] = none
find_by_id id (b ∷ rest) =
    let found = find_by_id id rest in if text_eq b.id id then some b else found

-- The form without a receiver, or with that of a beneficiary.
addressed_to : Text → FormData → FormData
addressed_to account form = record form {
  to_account = account;
  manual_beneficiary_name = [];
  manual_bank_name = [];
}

unfoldable pub empty_form : FormData
empty_form = record {
  to_account = [];
  amount = none;
  purpose = [];
  custom_purpose = [];
  manual_beneficiary_name = [];
  manual_bank_name = [];
}

-- What a field of the form is changed to.
pub data Change : Type 0 where
  to_account : Text → Change
  amount : Option ℤ → Change
  purpose : Text → Change
  custom_purpose : Text → Change
  manual_beneficiary_name : Text → Change
  manual_bank_name : Text → Change

changed : Change → FormData → FormData
changed (to_account value) form = record form { to_account = value }
changed (amount value) form = record form { amount = value }
changed (purpose value) form =
    if text_eq value (lit "Others")
    then record form { purpose = value }
    else record form { purpose = value; custom_purpose = [] }
changed (custom_purpose value) form = record form { custom_purpose = value }
changed (manual_beneficiary_name value) form = record form { manual_beneficiary_name = value }
changed (manual_bank_name value) form = record form { manual_bank_name = value }

unfoldable pub failure_message : Failure → Text
failure_message failure = elim (truthy failure.response_message) [
  | some message ↦ message
  | none ↦ Option.get_or (truthy failure.message) (lit "Transaction failed")
]

module _ {Receipt : Type 0} where
  -- The states before anything is loaded.
  unfoldable pub initial_page : Page Receipt
  unfolding empty_form
  initial_page = record {
    beneficiaries = [];
    selected_beneficiary = none;
    customer_account = none;
    use_manual_entry = false;
    form_data = empty_form;
    loading_beneficiaries = true;
    loading_account = true;
    submitting = false;
    error = none;
    show_confirm_modal = false;
    show_receipt_modal = false;
    completed_transaction = none;
  }

  unfoldable pub load_customer_account :
      Option Holder → Answer (Option Overview) → Page Receipt → Page Receipt
  unfolding read_account
  load_customer_account user reply p = record p {
    error = none;
    customer_account = read_account user reply p.customer_account;
    loading_account = false;
  }

  unfoldable pub load_beneficiaries :
      Answer (Option (List Beneficiary)) → Page Receipt → Page Receipt
  unfolding read_beneficiaries
  load_beneficiaries reply p = record p {
    beneficiaries = read_beneficiaries reply p.beneficiaries;
    loading_beneficiaries = false;
  }

  -- The form is set to what it was when the beneficiary was asked for, with the receiver.
  select : Beneficiary → FormData → Page Receipt → Page Receipt
  unfolding addressed_to
  select b form p = record p {
    selected_beneficiary = some b;
    form_data = addressed_to b.account_number form;
  }

  unfoldable pub select_listed : Option Beneficiary → FormData → Page Receipt → Page Receipt
  unfolding select
  select_listed none form p = p
  select_listed (some b) form p = select b form p

  unfoldable pub select_answered : Asked → Answer Beneficiary → Page Receipt → Page Receipt
  unfolding select select_listed find_by_id
  select_answered asked (answered b) p = select b asked.form_data p
  select_answered asked (failed failure) p =
      select_listed (find_by_id asked.id asked.beneficiaries) asked.form_data p

  -- Up to the request, if there is one.
  unfoldable pub handle_beneficiary_select : Text → Page Receipt → Page Receipt × Option Asked
  unfolding addressed_to
  handle_beneficiary_select id p =
      if is_empty id
      then (record p { selected_beneficiary = none; form_data = addressed_to [] p.form_data }, none)
      else (p, some (record { id = id; form_data = p.form_data; beneficiaries = p.beneficiaries }))

  unfoldable pub handle_toggle_manual_entry : Page Receipt → Page Receipt
  unfolding addressed_to
  handle_toggle_manual_entry p = record p {
    use_manual_entry = not p.use_manual_entry;
    selected_beneficiary = none;
    form_data = addressed_to [] p.form_data;
  }

  unfoldable pub handle_change : Change → Page Receipt → Page Receipt
  unfolding changed
  handle_change change p = record p { form_data = changed change p.form_data; error = none }

  unfoldable pub handle_quick_amount : ℤ → Page Receipt → Page Receipt
  handle_quick_amount value p = record p {
    form_data = record p.form_data { amount = some value };
    error = none;
  }

  unfoldable pub handle_submit : Page Receipt → Page Receipt
  handle_submit p = elim (validate_form p) [
    | some message ↦ record p { error = some message }
    | none ↦ record p { error = none; show_confirm_modal = true }
  ]

  unfoldable pub payload_of : Page Receipt → Payload
  unfolding sent_purpose
  payload_of p = record {
    to_account = trim p.form_data.to_account;
    amount = p.form_data.amount;
    purpose = sent_purpose p.form_data;
  }

  -- From the answer of the server on; after a success the account is loaded again.
  unfoldable pub finish_transaction :
      Option Holder → Answer Receipt → Answer (Option Overview) → Page Receipt → Page Receipt
  unfolding load_customer_account failure_message empty_form
  finish_transaction user (answered receipt) overview p =
      record (load_customer_account user overview (record p { show_confirm_modal = false })) {
        completed_transaction = some receipt;
        show_receipt_modal = true;
        form_data = empty_form;
        selected_beneficiary = none;
        use_manual_entry = false;
        submitting = false;
      }
  finish_transaction user (failed failure) overview p = record p {
    error = some (failure_message failure);
    show_confirm_modal = false;
    submitting = false;
  }

  -- The page afterwards, and what was sent.
  unfoldable pub handle_confirm_transaction :
      Option Holder
      → Answer Receipt
      → Answer (Option Overview)
      → Page Receipt
      → Page Receipt × Payload
  unfolding finish_transaction payload_of
  handle_confirm_transaction user reply overview p = (
    finish_transaction user reply overview (record p { submitting = true; error = none }),
    payload_of p,
  )

  unfoldable pub handle_cancel_confirm : Page Receipt → Page Receipt
  handle_cancel_confirm p = record p { show_confirm_modal = false }

  unfoldable pub handle_close_receipt : Page Receipt → Page Receipt
  handle_close_receipt p = record p { show_receipt_modal = false; completed_transaction = none }
