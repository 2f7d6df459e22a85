-- ===== src/Approvals/Filters.antt =====
-- frontend/src/pages/manager/ApproveTransaction/ApproveTransaction.jsx: `applyFilters`.
-- `Array.prototype.sort` is stable, which makes its result the one that insertion gives.
use hybrid_quantum_cryptogra.Prelude.{
  ℕ, Bool, true, false, ◌&&◌, ◌||◌, Option, none, some, List, if◌then◌else◌, leb, ltb, filter_by,
}
use hybrid_quantum_cryptogra.Js.{contains, Text, lit, text_eq, to_lower_case, is_empty}
use hybrid_quantum_cryptogra.Sorting.{sort}
use hybrid_quantum_cryptogra.Approvals.Transactions.{Transaction}

-- The choices that the page offers; `unsorted` is the `default` case.
pub data AmountRange : Type 0 where
  all low medium high very_high : AmountRange

pub data SortBy : Type 0 where
  date_asc date_desc amount_asc amount_desc risk_desc unsorted : SortBy

pub record Filters : Type 0 where
  pub risk_level : Text
  pub amount_range : AmountRange
  pub sort_by : SortBy
  pub search_query : Text

unfoldable pub level_is : Text → Transaction → Bool
level_is level tx = elim (tx.risk) [
  | none ↦ false
  | some risk ↦ elim (risk.level) [ none ↦ false | some name ↦ text_eq name level ]
]

unfoldable pub by_risk : Text → List Transaction → List Transaction
unfolding level_is
by_risk level txs = if text_eq level (lit "all") then txs else filter_by (level_is level) txs

-- The lower bound and the upper one, which is not in the range; `none` is `Infinity`.
bounds : AmountRange → ℕ × Option ℕ
bounds all = (0, none)
bounds low = (0, some 10000)
bounds medium = (10000, some 100000)
bounds high = (100000, some 1000000)
bounds very_high = (1000000, none)

below : ℕ → Option ℕ → Bool
below amount none = true
below amount (some max) = ltb amount max

unfoldable pub in_range : AmountRange → ℕ → Bool
unfolding bounds below
in_range range amount = leb (bounds range).0 amount && below amount (bounds range).1

unfoldable pub by_amount : AmountRange → List Transaction → List Transaction
unfolding in_range
by_amount all txs = txs
by_amount range txs = filter_by (λ tx. in_range range tx.amount) txs

-- `field?.toLowerCase().includes(query)`
unfoldable pub mentions : Text → Option Text → Bool
unfolding contains
mentions query none = false
mentions query (some field) = contains query (to_lower_case field)

unfoldable pub is_hit : Text → Transaction → Bool
unfolding mentions
is_hit query tx =
    mentions query tx.id
    || mentions query tx.from_account
    || mentions query tx.to_account
    || mentions query tx.purpose

unfoldable pub by_search : Text → List Transaction → List Transaction
unfolding is_hit
by_search search_query txs =
    if is_empty search_query then txs else filter_by (is_hit (to_lower_case search_query)) txs

-- `risk?.score || 0`
unfoldable pub score_of : Transaction → ℕ
score_of tx = elim (tx.risk) [
  | none ↦ 0
  | some risk ↦ elim (risk.score) [ none ↦ 0 | some score ↦ score ]
]

-- Whether the comparison leaves two transactions in this order.
unfoldable pub in_order : SortBy → Transaction → Transaction → Bool
unfolding score_of
in_order date_asc a b = leb a.created_at b.created_at
in_order date_desc a b = leb b.created_at a.created_at
in_order amount_asc a b = leb a.amount b.amount
in_order amount_desc a b = leb b.amount a.amount
in_order risk_desc a b = leb (score_of b) (score_of a)
in_order unsorted a b = true

unfoldable pub apply_filters : Filters → List Transaction → List Transaction
unfolding by_risk by_amount by_search sort in_order
apply_filters filters txs = sort (in_order filters.sort_by) (
    by_search filters.search_query
      (by_amount filters.amount_range (by_risk filters.risk_level txs)))
