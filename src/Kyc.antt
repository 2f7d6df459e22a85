-- ===== src/Kyc.antt =====
-- frontend/src/pages/manager/KYCVerification/KYCVerification.jsx: verifying and rejecting what customers
-- have handed in about themselves. A handler that waits is two functions, one up to the request and one
-- from the answer on.
pub mod Steps
pub mod Decisions
pub mod Races
use hybrid_quantum_cryptogra.Prelude.{
  Bool, true, false, ◌||◌, Option, none, some, List, [], ◌∷◌, if◌then◌else◌, filter_by,
}
use hybrid_quantum_cryptogra.Js.{Text, lit, text_eq, is_empty, trim, contains, to_lower_case}
use hybrid_quantum_cryptogra.Answers.{Answer, answered, failed, message_or}

-- A customer in the list, and the same with details. `id` is the text of a number.
pub record Customer : Type 0 where
  pub id : Text
  pub username : Option Text
  pub email : Option Text
  pub full_name : Option Text
  pub kyc_status : Text

pub data Action : Type 0 where
  verify reject : Action

pub record Modal : Type 0 where
  pub action : Action
  pub customer : Customer

pub record Page (Statistics : Type 0) : Type 0 where
  pub customers : List Customer
  pub statistics : Option Statistics
  pub loading : Bool
  pub error : Option Text
  pub success : Option Text
  pub status_filter : Text
  pub search_query : Text
  pub selected_customer : Option Customer
  pub customer_details : Option Customer
  pub action_modal : Option Modal
  pub remarks : Text
  pub reason : Text
  pub details_loading : Bool

pub data Request : Type 0 where
  listing : (status : Option Text) → Request
  statistics : Request
  details : (id : Text) → Request
  verifying : (id remarks : Text) → Request
  rejecting : (id reason : Text) → Request

-- `field?.toLowerCase().includes(query)`
unfoldable pub field_met : (query : Text) → Option Text → Bool
field_met query none = false
field_met query (some field) = contains query (to_lower_case field)

unfoldable pub search_met : Text → Customer → Bool
unfolding field_met
search_met query c =
    field_met query c.username
    || field_met query c.email
    || field_met query c.full_name
    || contains query c.id

unfoldable pub is_pending : Customer → Bool
is_pending c = text_eq c.kyc_status (lit "pending")

module _ {Statistics : Type 0} where
  unfoldable pub initial_page : Page Statistics
  initial_page = record {
    customers = [];
    statistics = none;
    loading = false;
    error = none;
    success = none;
    status_filter = lit "all";
    search_query = [];
    selected_customer = none;
    customer_details = none;
    action_modal = none;
    remarks = [];
    reason = [];
    details_loading = false;
  }

  unfoldable pub filtered_customers : Page Statistics → List Customer
  filtered_customers p =
      if is_empty p.search_query
      then p.customers
      else filter_by (search_met (to_lower_case p.search_query)) p.customers

  -- `loadCustomers` and `loadStatistics`, which are called together.
  unfoldable pub load_customers : Page Statistics → Page Statistics × List Request
  load_customers p = (
    record p { loading = true; error = none },
    listing (if text_eq p.status_filter (lit "all") then none else some p.status_filter)
        ∷ statistics
        ∷ [],
  )

  unfoldable pub customers_loaded : Answer (List Customer) → Page Statistics → Page Statistics
  customers_loaded (answered found) p = record p { customers = found; loading = false }
  customers_loaded (failed message) p = record p {
    error = some (message_or message "Failed to load KYC data");
    loading = false;
  }

  unfoldable pub statistics_loaded : Answer Statistics → Page Statistics → Page Statistics
  statistics_loaded (answered counted) p = record p { statistics = some counted }
  statistics_loaded (failed message) p = p

  -- Selecting a customer, and the effect that it has.
  unfoldable pub load_customer_details : Customer → Page Statistics → Page Statistics × List Request
  load_customer_details c p =
      (record p { selected_customer = some c; details_loading = true }, details c.id ∷ [])

  unfoldable pub details_loaded : Answer Customer → Page Statistics → Page Statistics
  details_loaded (answered found) p = record p {
    customer_details = some found;
    details_loading = false;
  }
  details_loaded (failed message) p = record p {
    error = some (message_or message "Failed to load customer details");
    details_loading = false;
  }

  unfoldable pub close_details : Page Statistics → Page Statistics
  close_details p = record p { selected_customer = none; customer_details = none }

  unfoldable pub open_modal : Action → Customer → Page Statistics → Page Statistics
  open_modal action c p = record p {
    action_modal = some (record { action = action; customer = c });
  }

  unfoldable pub cancel_modal : Page Statistics → Page Statistics
  cancel_modal p = record p { action_modal = none; remarks = []; reason = []; error = none }

  unfoldable pub handle_verify : (id : Text) → Page Statistics → Page Statistics × List Request
  handle_verify id p = (record p { error = none; success = none }, verifying id p.remarks ∷ [])

  unfoldable pub handle_reject : (id : Text) → Page Statistics → Page Statistics × List Request
  handle_reject id p =
      if is_empty (trim p.reason)
      then (record p { error = some (lit "Rejection reason is required") }, [])
      else (record p { error = none; success = none }, rejecting id p.reason ∷ [])

  -- The dialogs are closed, and the list is loaded again.
  decided : Text → Page Statistics → Page Statistics × List Request
  unfolding load_customers
  decided success p = load_customers (record p {
    success = some success;
    action_modal = none;
    selected_customer = none;
    customer_details = none;
  })

  unfoldable pub verified : Answer (Unit {0}) → Page Statistics → Page Statistics × List Request
  unfolding decided
  verified (answered done) p = decided (lit "KYC verified successfully") (record p { remarks = [] })
  verified (failed message) p =
      (record p { error = some (message_or message "Failed to verify KYC") }, [])

  unfoldable pub rejected : Answer (Unit {0}) → Page Statistics → Page Statistics × List Request
  unfolding decided
  rejected (answered done) p = decided (lit "KYC rejected") (record p { reason = [] })
  rejected (failed message) p =
      (record p { error = some (message_or message "Failed to reject KYC") }, [])

  -- The button of the dialog.
  confirm_modal : Option Modal → Page Statistics → Page Statistics × List Request
  unfolding handle_verify handle_reject
  confirm_modal none p = (p, [])
  confirm_modal (some m) p = elim m.action [
    | verify ↦ handle_verify m.customer.id p
    | reject ↦ handle_reject m.customer.id p
  ]

  unfoldable pub confirm : Page Statistics → Page Statistics × List Request
  unfolding confirm_modal
  confirm p = confirm_modal p.action_modal p

  -- The text area of the dialog.
  enter_text : Action → Text → Page Statistics → Page Statistics
  enter_text verify text p = record p { remarks = text }
  enter_text reject text p = record p { reason = text }

  unfoldable pub enter_modal : Text → Page Statistics → Page Statistics
  unfolding enter_text
  enter_modal text p = elim p.action_modal [ none ↦ p | some m ↦ enter_text m.action text p ]

  -- The details in the dialog, and what it offers.
  unfoldable pub shown_details : Page Statistics → Option Customer
  shown_details p = elim p.selected_customer [
    | none ↦ none
    | some c ↦ if p.details_loading then none else p.customer_details
  ]
