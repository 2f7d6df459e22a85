-- ===== src/Accounts/Listing.antt =====
-- frontend/src/pages/manager/ManagerCustomers/ManagerCustomers.jsx: the accounts that the table shows, and
-- the file that they are exported to.

use hybrid_quantum_cryptogra.Prelude.{
  Bool, true, false, not, ◌&&◌, ◌||◌, none, some, List, [], ◌∷◌, map, filter_by, if◌then◌else◌,
}
use hybrid_quantum_cryptogra.Js.{Text, lit, is_empty, or_empty, contains, to_lower_case, text_lt}
use hybrid_quantum_cryptogra.Sorting.{sort}
use hybrid_quantum_cryptogra.Answers.{csv_of}
use hybrid_quantum_cryptogra.Accounts.{
  Account, SortKey, by_customer_id, by_name, by_account_type, by_account_status, SortConfig, Page,
}

unfoldable pub query_met : (query : Text) → Account → Bool
query_met query a =
    let q = to_lower_case query in
    contains q (to_lower_case a.name)
    || contains q (to_lower_case a.customer_id)
    || contains q (to_lower_case a.masked_account_number)
    || contains q (to_lower_case a.account_number)

-- `entry[key]`
value_of : SortKey → Account → Text
value_of by_customer_id a = a.customer_id
value_of by_name a = a.name
value_of by_account_type a = a.account_type
value_of by_account_status a = a.account_status

-- Whether the comparison leaves two accounts in this order.
unfoldable pub in_order : SortKey → Bool → Account → Account → Bool
unfolding value_of text_lt
in_order key ascending a b =
    if ascending
    then not (text_lt (value_of key b) (value_of key a))
    else not (text_lt (value_of key a) (value_of key b))

unfoldable pub sorted_by : SortConfig → List Account → List Account
unfolding in_order sort
sorted_by config accounts = elim config.key [
  | none ↦ accounts
  | some key ↦ sort (in_order key config.ascending) accounts
]

same_key : SortKey → SortKey → Bool
same_key by_customer_id by_customer_id = true
same_key by_name by_name = true
same_key by_account_type by_account_type = true
same_key by_account_status by_account_status = true
same_key _ _ = false

unfoldable pub handle_sort : SortKey → SortConfig → SortConfig
unfolding same_key
handle_sort key config = record {
  key = some key;
  ascending = elim config.key [
    | none ↦ true
    | some old ↦ not (same_key old key && config.ascending)
  ];
}

unfoldable pub export_headers : List Text
export_headers =
    lit "Customer ID"
    ∷ lit "Name"
    ∷ lit "Account Number"
    ∷ lit "Account Type"
    ∷ lit "Status"
    ∷ lit "Balance"
    ∷ lit "KYC Status"
    ∷ lit "Created At"
    ∷ []

unfoldable pub export_row : Account → List Text
export_row a =
    a.customer_id
    ∷ a.name
    ∷ a.masked_account_number
    ∷ a.account_type
    ∷ a.account_status
    ∷ a.balance
    ∷ a.kyc_status
    ∷ or_empty a.created_at
    ∷ []

module _ {Statistics : Type 0} where
  unfoldable pub filtered : Page Statistics → List Account
  unfolding query_met sorted_by
  filtered p =
      sorted_by p.sort_config
        (if is_empty p.query then p.accounts else filter_by (query_met p.query) p.accounts)

  unfoldable pub export_to_csv : Page Statistics → Text
  export_to_csv p = csv_of export_headers (map export_row (filtered p))
