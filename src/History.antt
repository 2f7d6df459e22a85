-- ===== src/History.antt =====
-- frontend/src/pages/customer/TransactionHistory/TransactionHistory.jsx: the filters, the order and the
-- export of a customer's transactions.
--
-- A status is a text of ASCII letters. A date is missing, or cannot be read, or is a moment; the moments of
-- the two boundaries are those that `parseDateInput` makes of the fields, if they are filled in.
pub mod Export
pub mod Showing
pub mod Buttons
use hybrid_quantum_cryptogra.Prelude.{
  ℕ, ◌-◌, ◌+◌, min, max, Bool, true, false, not, ◌&&◌, ◌||◌, Option, none, some, List, [], ◌∷◌,
  ◌++◌, map, filter_by, leb, if◌then◌else◌,
}
use hybrid_quantum_cryptogra.Js.{
  Text, lit, text_eq, to_lower_case, trim, is_empty, or_empty, contains, join, ℤ, gtb, text_lt,
}
use hybrid_quantum_cryptogra.Sorting.{sort}

pub data Stamp : Type 0 where
  missing unreadable : Stamp
  moment : ℤ → Stamp

-- `amount` is `${tx.amount}` and `value` is `Number(tx.amount)`; `created_text` is the date as the browser
-- writes it.
pub record Transaction : Type 0 where
  pub id : Text
  pub direction : Text
  pub from_account : Option Text
  pub to_account : Option Text
  pub amount : Text
  pub value : ℤ
  pub status : Text
  pub purpose : Option Text
  pub created_at : Stamp
  pub created_text : Text

pub record Filters : Type 0 where
  pub direction : Text
  pub status : Text
  pub account : Text
  pub start_date : Option ℤ
  pub end_date : Option ℤ
  pub search : Text

pub data SortKey : Type 0 where
  by_direction by_amount by_status by_date : SortKey

pub record SortConfig : Type 0 where
  pub key : SortKey
  pub ascending : Bool

pub record View : Type 0 where
  pub transactions : List Transaction
  pub filters : Filters
  pub sort_config : SortConfig
  pub current_page : ℕ
  pub items_per_page : ℕ

abbrev pub default_filters : Filters
default_filters = record {
  direction = lit "ALL";
  status = lit "ALL";
  account = [];
  start_date = none;
  end_date = none;
  search = [];
}

-- A change of a field of the filters.
unfoldable pub update_filter : (Filters → Filters) → View → View
update_filter change v = record v { filters = change v.filters; current_page = 1 }

unfoldable pub clear_filters : View → View
clear_filters v = record v { filters = default_filters; current_page = 1 }

same_key : SortKey → SortKey → Bool
same_key by_direction by_direction = true
same_key by_amount by_amount = true
same_key by_status by_status = true
same_key by_date by_date = true
same_key _ _ = false

unfoldable pub request_sort : SortKey → View → View
unfolding same_key
request_sort key v = record v {
  sort_config = record {
    key = key;
    ascending = not (same_key v.sort_config.key key && v.sort_config.ascending);
  };
}

upper_unit : ℕ → ℕ
upper_unit c = if leb b'a' c && leb c b'z' then c - 32 else c

-- `toUpperCase` of ASCII.
unfoldable pub to_upper_case : Text → Text
unfolding upper_unit
to_upper_case s = map upper_unit s

unfoldable pub direction_met : Filters → Transaction → Bool
direction_met f tx = text_eq f.direction (lit "ALL") || text_eq tx.direction f.direction

unfoldable pub status_met : Filters → Transaction → Bool
unfolding to_upper_case
status_met f tx = text_eq f.status (lit "ALL") || text_eq (to_upper_case tx.status) f.status

unfoldable pub account_met : Filters → Transaction → Bool
account_met f tx =
    let query = to_lower_case (trim f.account) in
    is_empty query
    || contains query (to_lower_case (or_empty tx.from_account))
    || contains query (to_lower_case (or_empty tx.to_account))

-- The fields, each on a line of its own and indented, as the template has them.
searchable_text : Transaction → Text
searchable_text tx =
    let indent = lit "\n          " in
    indent
    ++ (tx.id
        ++ (indent
            ++ (or_empty tx.from_account
                ++ (indent
                    ++ (or_empty tx.to_account
                        ++ (indent
                            ++ (tx.amount
                                ++ (indent
                                    ++ (or_empty tx.purpose
                                        ++ (indent ++ (tx.status ++ lit "\n        ")))))))))))

unfoldable pub search_met : Filters → Transaction → Bool
unfolding searchable_text
search_met f tx =
    let query = to_lower_case (trim f.search) in
    is_empty query || contains query (to_lower_case (searchable_text tx))

-- A date that cannot be read is on neither side of a boundary.
unfoldable pub not_before : Option ℤ → Stamp → Bool
not_before none stamp = true
not_before (some boundary) missing = false
not_before (some boundary) unreadable = true
not_before (some boundary) (moment t) = not (gtb boundary t)

unfoldable pub not_after : Option ℤ → Stamp → Bool
not_after none stamp = true
not_after (some boundary) missing = false
not_after (some boundary) unreadable = true
not_after (some boundary) (moment t) = not (gtb t boundary)

unfoldable pub meets : Filters → Transaction → Bool
meets f tx =
    direction_met f tx
    && status_met f tx
    && account_met f tx
    && search_met f tx
    && not_before f.start_date tx.created_at
    && not_after f.end_date tx.created_at

-- `aValue > bValue`, which is false where a date is no number.
date_gt : Stamp → Stamp → Bool
date_gt (moment a) (moment b) = gtb a b
date_gt _ _ = false

gt_by : SortKey → Transaction → Transaction → Bool
unfolding date_gt text_lt
gt_by by_direction a b = text_lt b.direction a.direction
gt_by by_amount a b = gtb a.value b.value
gt_by by_status a b = text_lt b.status a.status
gt_by by_date a b = date_gt a.created_at b.created_at

-- Whether the comparison leaves two transactions in this order. Where dates that cannot be read take part
-- the order is the engine's.
unfoldable pub in_order : SortConfig → Transaction → Transaction → Bool
unfolding gt_by
in_order config a b =
    if config.ascending then not (gt_by config.key a b) else not (gt_by config.key b a)

unfoldable pub filtered_transactions : View → List Transaction
unfolding in_order sort
filtered_transactions v = sort (in_order v.sort_config) (filter_by (meets v.filters) v.transactions)

is_missing : Option ℤ → Bool
is_missing none = true
is_missing (some boundary) = false

unfoldable pub filters_pristine : Filters → Bool
unfolding is_missing
filters_pristine f =
    text_eq f.direction (lit "ALL")
    && text_eq f.status (lit "ALL")
    && is_empty f.account
    && is_missing f.start_date
    && is_missing f.end_date
    && is_empty f.search

-- The buttons below the table: the i-th page number, and the steps of a page. They are there where some
-- transaction is shown.
unfoldable pub page_number : (total_pages current_page i : ℕ) → ℕ
page_number total_pages current_page i =
    if leb total_pages 5
    then i + 1
    else if leb current_page 3
    then i + 1
    else if leb (total_pages - 2) current_page
    then total_pages - 4 + i
    else current_page - 2 + i

unfoldable pub previous_page : View → View
previous_page v = record v { current_page = max 1 (v.current_page - 1) }

unfoldable pub next_page : (total_pages : ℕ) → View → View
next_page total_pages v = record v { current_page = min total_pages (v.current_page + 1) }

unfoldable pub show_page : ℕ → View → View
show_page page v = record v { current_page = page }

unfoldable pub set_items_per_page : ℕ → View → View
set_items_per_page items v = record v { items_per_page = items; current_page = 1 }

-- `exportToCSV`: the content of the file.
abbrev pub headers : Text
headers = lit "ID,Direction,From Account,To Account,Amount,Status,Purpose,Created At"

abbrev pub row_of : Transaction → List Text
row_of tx =
    tx.id
    ∷ tx.direction
    ∷ or_empty tx.from_account
    ∷ or_empty tx.to_account
    ∷ tx.amount
    ∷ tx.status
    ∷ or_empty tx.purpose
    ∷ tx.created_text
    ∷ []

-- `"${cell}"`
unfoldable pub quoted : Text → Text
quoted cell = b'"' ∷ (cell ++ (b'"' ∷ []))

unfoldable pub row_text : List Text → Text
unfolding quoted
row_text cells = join b',' (map quoted cells)

unfoldable pub csv_content : View → Text
unfolding row_text
csv_content v = join b'\n' (headers ∷ map (λ tx. row_text (row_of tx)) (filtered_transactions v))
