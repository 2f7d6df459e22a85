-- ===== src/Beneficiaries.antt =====
-- frontend/src/pages/customer/BeneficiaryManagement/BeneficiaryManagement.jsx with its dialogs,
-- frontend/src/components/customer/BeneficiaryFormModal.jsx and
-- frontend/src/components/admin/DeleteConfirmModal.jsx: adding, changing and deleting beneficiaries. The
-- answers of the server are arguments; the reload that follows a change is taken to run at once.
pub mod Handlers
pub mod Steps
pub mod Dialogs
use mathlib.Core.Option
use hybrid_quantum_cryptogra.Prelude.{
  ℕ, Bool, true, false, ◌&&◌, Option, none, some, List, [], ◌∷◌, if◌then◌else◌, String,
}
use hybrid_quantum_cryptogra.Js.{
  Text, lit, or_empty, is_empty, Result, ok, throw, Thrown, error, type_error,
}
use hybrid_quantum_cryptogra.Roles.{User, truthy}

pub record Beneficiary : Type 0 where
  pub id : Text
  pub beneficiary_name : Option Text
  pub account_number : Option Text
  pub bank_name : Option Text
  pub branch_code : Option Text
  pub ifsc_code : Option Text
  pub nickname : Option Text
  pub description : Option Text

pub record FormData : Type 0 where
  pub beneficiary_name : Text
  pub account_number : Text
  pub bank_name : Text
  pub branch_code : Text
  pub ifsc_code : Text
  pub nickname : Text
  pub description : Text

pub data Mode : Type 0 where
  add edit : Mode

-- What the dialog hands on: the whole form, or the two fields that may be changed.
pub data Submission : Type 0 where
  whole : FormData → Submission
  brief : (nickname description : Text) → Submission

pub data Request : Type 0 where
  adding : Submission → Request
  updating : (id : Text) → Submission → Request
  deleting : (id : Text) → Request

pub data Notice : Type 0 where
  good problem : Text → Notice

pub data Answer (A : Type 0) : Type 0 where
  answered : A → Answer A
  failed : (message : Option Text) → Answer A

-- The state of the dialog with the form.
pub record Dialog : Type 0 where
  pub mode : Mode
  pub form_data : FormData
  pub loading : Bool
  pub error : Option Text

pub record Listing (Statistics : Type 0) : Type 0 where
  pub beneficiaries : Option (List Beneficiary)
  pub statistics : Option Statistics

pub record Page (Statistics : Type 0) : Type 0 where
  pub beneficiaries : List Beneficiary
  pub statistics : Option Statistics
  pub loading : Bool
  pub current_page : ℕ
  pub show_add_modal : Bool
  pub show_edit_modal : Bool
  pub show_delete_modal : Bool
  pub selected_beneficiary : Option Beneficiary
  pub notices : List Notice

-- `beneficiary?.field || fallback`
unfoldable pub or_text : Option Text → Text → Text
or_text text fallback = Option.get_or (truthy text) fallback

form_of : Option Beneficiary → FormData
unfolding or_text
form_of none = record {
  beneficiary_name = [];
  account_number = [];
  bank_name = lit "PQ Bank";
  branch_code = [];
  ifsc_code = [];
  nickname = [];
  description = [];
}
form_of (some b) = record {
  beneficiary_name = or_text b.beneficiary_name [];
  account_number = or_text b.account_number [];
  bank_name = or_text b.bank_name (lit "PQ Bank");
  branch_code = or_text b.branch_code [];
  ifsc_code = or_text b.ifsc_code [];
  nickname = or_text b.nickname [];
  description = or_text b.description [];
}

unfoldable pub open_dialog : Mode → Option Beneficiary → Dialog
unfolding form_of
open_dialog mode beneficiary = record {
  mode = mode;
  form_data = form_of beneficiary;
  loading = false;
  error = none;
}

unfoldable pub submit_data : Mode → FormData → Submission
submit_data edit form = brief form.nickname form.description
submit_data add form = whole form

unfoldable pub handle_change : (FormData → FormData) → Dialog → Dialog
handle_change change d = record d { form_data = change d.form_data }

-- The message of what `onSubmit` throws.
unfoldable pub dialog_error : Thrown → Option Text
dialog_error type_error = none
dialog_error (error message) =
    if is_empty message then some (lit "Operation failed") else some message

-- The dialog after `onSubmit` has come to an end.
unfoldable pub settle_dialog : Result (Unit {0}) → Dialog → Dialog
unfolding dialog_error
settle_dialog (ok finished) d = record d { loading = false; error = none }
settle_dialog (throw e) d = record d { loading = false; error = dialog_error e }

-- DeleteConfirmModal.jsx: it is only there with a user.
unfoldable pub confirm_shown : (is_open : Bool) → Option User → Bool
confirm_shown is_open none = false
confirm_shown is_open (some user) = is_open

unfoldable pub has_selection : Option Beneficiary → Bool
has_selection none = false
has_selection (some b) = true

unfoldable pub failure : Option Text → String → Result (Unit {0})
failure message fallback = throw (error (or_text message (lit fallback)))
