-- ===== src/Audits.antt =====
-- frontend/src/pages/auditorClerk/AuditTransactions/AuditTransactions.jsx: an auditor looks through the
-- transactions. A change of the filters or of the page sends a request from an effect; a handler that
-- waits is two functions, one up to the request and one from the answer on.
pub mod Steps
pub mod Latest
pub mod Freshness
pub mod Races
use mathlib.Core.Option
use hybrid_quantum_cryptogra.Prelude.{
  ℕ, zero, suc, Bool, true, false, ◌&&◌, ◌==◌, Option, none, some, List, [], ◌∷◌, ◌++◌,
  if◌then◌else◌, String,
}
use hybrid_quantum_cryptogra.Js.{Text, lit, text_eq, is_empty, ℤ, pos, negsuc}
use hybrid_quantum_cryptogra.Answers.{Answer, answered, failed, message_or}

abbrev pub following : ℤ → ℤ
following (pos n) = pos (suc n)
following (negsuc zero) = pos zero
following (negsuc (suc n)) = negsuc n

abbrev pub preceding : ℤ → ℤ
preceding (pos zero) = negsuc zero
preceding (pos (suc n)) = pos n
preceding (negsuc n) = negsuc (suc n)

unfoldable pub same_page : ℤ → ℤ → Bool
same_page (pos n) (pos m) = n == m
same_page (negsuc n) (negsuc m) = n == m
same_page _ _ = false

pub record Filters : Type 0 where
  pub status : Text
  pub date_from : Text
  pub date_to : Text
  pub amount_min : Text
  pub amount_max : Text
  pub search : Text

pub data Field : Type 0 where
  status date_from date_to amount_min amount_max search : Field

-- What is typed into a field.
unfoldable pub enter : Field → Text → Filters → Filters
enter status value f = record f { status = value }
enter date_from value f = record f { date_from = value }
enter date_to value f = record f { date_to = value }
enter amount_min value f = record f { amount_min = value }
enter amount_max value f = record f { amount_max = value }
enter search value f = record f { search = value }

-- The parameters of a request, in order.
pub data Value : Type 0 where
  text : Text → Value
  number : ℤ → Value

abbrev pub Params : Type 0
Params = List (Text × Value)

pub data Request : Type 0 where
  listing : Params → Request
  statistics : Request
  details : (id : Text) → Request

-- What the server says of the pages.
pub record Pagination : Type 0 where
  pub page : ℕ
  pub pages : ℕ
  pub total : ℕ
  pub has_prev : Bool
  pub has_next : Bool

-- The transactions, the details of one and the numbers are shown and not looked at.
pub record Page (T D S : Type 0) : Type 0 where
  pub transactions : List T
  pub statistics : Option S
  pub loading : Bool
  pub error : Option Text
  pub filters : Filters
  pub current_page : ℤ
  pub pagination : Option Pagination
  pub selected_transaction : Option D
  pub show_detail_modal : Bool

unfoldable pub no_filters : Filters
no_filters = record {
  status = lit "all";
  date_from = [];
  date_to = [];
  amount_min = [];
  amount_max = [];
  search = [];
}

-- `if (value) params.append(name, value)`
unfoldable pub given : String → Text → Params
given name value = if is_empty value then [] else (lit name, text value) ∷ []

unfoldable pub params_of : Filters → ℤ → Params
unfolding given
params_of f page =
    (if text_eq f.status (lit "all") then [] else (lit "status", text f.status) ∷ [])
    ++ (given "date_from" f.date_from
        ++ (given "date_to" f.date_to
            ++ (given "amount_min" f.amount_min
                ++ (given "amount_max" f.amount_max
                    ++ (given "search" f.search
                        ++ ((lit "page", number page) ∷ (lit "per_page", number (pos 50)) ∷ []))))))

-- Whether the effect's dependencies are the same.
unfoldable pub same_filters : Filters → Filters → Bool
same_filters f g =
    text_eq f.status g.status
    && text_eq f.date_from g.date_from
    && text_eq f.date_to g.date_to
    && text_eq f.amount_min g.amount_min
    && text_eq f.amount_max g.amount_max
    && text_eq f.search g.search

module _ {T D S : Type 0} where
  unfoldable pub initial_page : Page T D S
  unfolding no_filters
  initial_page = record {
    transactions = [];
    statistics = none;
    loading = false;
    error = none;
    filters = no_filters;
    current_page = pos 1;
    pagination = none;
    selected_transaction = none;
    show_detail_modal = false;
  }

  abbrev pub query_of : Page T D S → Params
  query_of p = params_of p.filters p.current_page

  unfoldable pub load_transactions : Page T D S → Page T D S × List Request
  load_transactions p = (record p { loading = true }, listing (query_of p) ∷ [])

  unfoldable pub transactions_loaded :
      Answer (Option (List T) × Option Pagination) → Page T D S → Page T D S
  transactions_loaded (answered (found, pages)) p = record p {
    transactions = Option.get_or found [];
    pagination = pages;
    error = none;
    loading = false;
  }
  transactions_loaded (failed message) p = record p {
    error = some (message_or message "Failed to load transactions");
    loading = false;
  }

  unfoldable pub statistics_loaded : Answer S → Page T D S → Page T D S
  statistics_loaded (answered counted) p = record p { statistics = some counted }
  statistics_loaded (failed message) p = p

  unfoldable pub handle_view_details : Text → Page T D S → Page T D S × List Request
  handle_view_details id p = (record p { loading = true }, details id ∷ [])

  unfoldable pub details_loaded : Answer D → Page T D S → Page T D S
  details_loaded (answered found) p = record p {
    selected_transaction = some found;
    show_detail_modal = true;
    error = none;
    loading = false;
  }
  details_loaded (failed message) p = record p {
    error = some (message_or message "Failed to load transaction details");
    loading = false;
  }

  -- The effect after a change of the filters and the page.
  unfoldable pub rerender : Filters → ℤ → Page T D S → Page T D S × List Request
  unfolding load_transactions same_filters same_page
  rerender filters page p =
      let changed = record p { filters = filters; current_page = page } in
      if same_filters p.filters filters && same_page p.current_page page
      then (changed, [])
      else load_transactions changed

  unfoldable pub handle_input : Field → Text → Page T D S → Page T D S × List Request
  unfolding enter rerender
  handle_input field value p = rerender (enter field value p.filters) p.current_page p

  -- The transactions are asked for with the page that was current, and then the effect runs. The latest
  -- request comes first.
  unfoldable pub handle_apply_filters : Page T D S → Page T D S × List Request
  unfolding load_transactions rerender
  handle_apply_filters p =
      let (asked, first) = load_transactions p in
      let (done, second) = rerender p.filters (pos 1) asked in (done, second ++ first)

  unfoldable pub handle_clear_filters : Page T D S → Page T D S × List Request
  unfolding rerender
  handle_clear_filters p = rerender no_filters (pos 1) p

  unfoldable pub go_back : Page T D S → Page T D S × List Request
  unfolding rerender
  go_back p = rerender p.filters (preceding p.current_page) p

  unfoldable pub go_on : Page T D S → Page T D S × List Request
  unfolding rerender
  go_on p = rerender p.filters (following p.current_page) p

  unfoldable pub close_details : Page T D S → Page T D S
  close_details p = record p { show_detail_modal = false }
