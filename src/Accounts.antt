-- ===== src/Accounts.antt =====
-- frontend/src/pages/manager/ManagerCustomers/ManagerCustomers.jsx: the customer accounts that a manager
-- sees, marks and forwards. A handler that waits is two functions, one up to the request and one from the
-- answer on.
pub mod Listing
pub mod Steps
pub mod Limits
pub mod Races
pub mod Export
use hybrid_quantum_cryptogra.Prelude.{
  Bool, true, false, not, ◌&&◌, ◌||◌, Option, none, some, List, [], ◌∷◌, ◌++◌, if◌then◌else◌,
}
use hybrid_quantum_cryptogra.Js.{Text, lit, text_eq, is_empty}
use hybrid_quantum_cryptogra.Answers.{Answer, answered, failed, message_or}

-- An account, with the texts of what the server sends. `balance` is the text of a number.
pub record Account : Type 0 where
  pub customer_id : Text
  pub name : Text
  pub account_number : Text
  pub masked_account_number : Text
  pub account_type : Text
  pub account_status : Text
  pub balance : Text
  pub kyc_status : Text
  pub created_at : Option Text

pub data SortKey : Type 0 where
  by_customer_id by_name by_account_type by_account_status : SortKey

pub record SortConfig : Type 0 where
  pub key : Option SortKey
  pub ascending : Bool

pub record StatusChange : Type 0 where
  pub status : Text
  pub reason : Text

pub record Forward : Type 0 where
  pub reason : Text
  pub priority : Text

-- The numbers of the accounts are shown and not looked at.
pub record Page (Statistics : Type 0) : Type 0 where
  pub accounts : List Account
  pub statistics : Option Statistics
  pub query : Text
  pub message : Option Text
  pub loading : Bool
  pub status_filter : Text
  pub account_type_filter : Text
  pub sort_config : SortConfig
  pub selected_customer : Option Account
  pub show_status_modal : Bool
  pub show_forward_modal : Bool
  pub status_change_data : StatusChange
  pub forward_data : Forward

pub data Request : Type 0 where
  listing : (status account_type : Option Text) → Request
  statistics : Request
  details : (customer_id : Text) → Request
  updating : (customer_id status reason : Text) → Request
  forwarding : (customer_id reason priority : Text) → Request

-- A filter that is on.
unfoldable pub filter_value : Text → Option Text
filter_value filter = if text_eq filter (lit "all") then none else some filter

unfoldable pub empty_change : StatusChange
empty_change = record { status = []; reason = [] }

unfoldable pub empty_forward : Forward
empty_forward = record { reason = []; priority = lit "normal" }

-- Whether the details offer to change the status.
unfoldable pub may_change : Account → Bool
may_change c = not (text_eq c.account_status (lit "FROZEN"))

module _ {Statistics : Type 0} where
  unfoldable pub initial_page : Page Statistics
  unfolding empty_change empty_forward
  initial_page = record {
    accounts = [];
    statistics = none;
    query = [];
    message = none;
    loading = false;
    status_filter = lit "all";
    account_type_filter = lit "all";
    sort_config = record { key = none; ascending = true };
    selected_customer = none;
    show_status_modal = false;
    show_forward_modal = false;
    status_change_data = empty_change;
    forward_data = empty_forward;
  }

  unfoldable pub load_accounts : Page Statistics → Page Statistics × List Request
  unfolding filter_value
  load_accounts p = (
    record p { loading = true },
    listing (filter_value p.status_filter) (filter_value p.account_type_filter) ∷ statistics ∷ [],
  )

  -- Both requests are answered, or one has failed.
  unfoldable pub accounts_loaded :
      Answer (List Account × Statistics) → Page Statistics → Page Statistics
  accounts_loaded (answered (found, counted)) p = record p {
    accounts = found;
    statistics = some counted;
    message = none;
    loading = false;
  }
  accounts_loaded (failed message) p = record p {
    message = some (message_or message "Unable to load customer accounts");
    loading = false;
  }

  unfoldable pub handle_view_details : Text → Page Statistics → Page Statistics × List Request
  handle_view_details id p = (record p { loading = true }, details id ∷ [])

  unfoldable pub details_loaded : Answer Account → Page Statistics → Page Statistics
  details_loaded (answered found) p = record p {
    selected_customer = some found;
    message = none;
    loading = false;
  }
  details_loaded (failed message) p = record p {
    message = some (message_or message "Unable to load customer details");
    loading = false;
  }

  change_selected : Option Account → StatusChange → Page Statistics → Page Statistics × List Request
  change_selected none change p =
      (record p { message = some (lit "Unable to update account status"); loading = false }, [])
  change_selected (some c) change p =
      (record p { loading = true }, updating c.customer_id change.status change.reason ∷ [])

  -- Up to the request. With no customer selected reading its id throws, which the handler catches.
  unfoldable pub handle_status_change : Page Statistics → Page Statistics × List Request
  unfolding change_selected
  handle_status_change p =
      if is_empty p.status_change_data.status
      then (record p { message = some (lit "Please select a status") }, [])
      else change_selected p.selected_customer p.status_change_data p

  -- The list is loaded again, and `loading` is reset before it is there.
  reloaded : Page Statistics → Page Statistics × List Request
  unfolding load_accounts
  reloaded p = (record ((load_accounts p).0) { loading = false }, (load_accounts p).1)

  unfoldable pub status_changed :
      (status : Text) → Answer (Unit {0}) → Page Statistics → Page Statistics × List Request
  unfolding reloaded
  status_changed status (answered done) p = reloaded (record p {
    message = some (lit "Account status updated to " ++ status);
    show_status_modal = false;
    status_change_data = empty_change;
    selected_customer = none;
  })
  status_changed status (failed message) p = (
    record p {
      message = some (message_or message "Unable to update account status");
      loading = false;
    },
    [],
  )

  forward_selected : Option Account → Forward → Page Statistics → Page Statistics × List Request
  forward_selected none forward p =
      (record p { message = some (lit "Unable to forward account"); loading = false }, [])
  forward_selected (some c) forward p =
      (record p { loading = true }, forwarding c.customer_id forward.reason forward.priority ∷ [])

  unfoldable pub handle_forward_for_review : Page Statistics → Page Statistics × List Request
  unfolding forward_selected
  handle_forward_for_review p =
      if is_empty p.forward_data.reason
      then (record p { message = some (lit "Please provide a reason") }, [])
      else forward_selected p.selected_customer p.forward_data p

  unfoldable pub forwarded : Answer (Unit {0}) → Page Statistics → Page Statistics × List Request
  unfolding reloaded
  forwarded (answered done) p = reloaded (record p {
    message = some (lit "Account forwarded for review");
    show_forward_modal = false;
    forward_data = empty_forward;
    selected_customer = none;
  })
  forwarded (failed message) p = (
    record p { message = some (message_or message "Unable to forward account"); loading = false },
    [],
  )

  -- The dialog with an account's details, and what it offers.
  unfoldable pub details_shown : Page Statistics → Option Account
  details_shown p =
      if p.show_status_modal || p.show_forward_modal then none else p.selected_customer

  unfoldable pub open_status_modal : Page Statistics → Page Statistics
  open_status_modal p = record p { status_change_data = empty_change; show_status_modal = true }

  unfoldable pub open_forward_modal : Page Statistics → Page Statistics
  open_forward_modal p = record p { forward_data = empty_forward; show_forward_modal = true }

  -- The buttons that confirm.
  unfoldable pub can_change : Page Statistics → Bool
  can_change p = not (is_empty p.status_change_data.status || p.loading)

  unfoldable pub can_forward : Page Statistics → Bool
  can_forward p = not (is_empty p.forward_data.reason || p.loading)
