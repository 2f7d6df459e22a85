-- ===== src/Approvals/Filtering.antt =====
-- frontend/src/pages/manager/ApproveTransaction/ApproveTransaction.jsx: what the filters leave, and in
-- which order.
use mathlib.Core.List.{Permᴰ}
use hybrid_quantum_cryptogra.Prelude.{
  ℕ, ◌≡◌, ◌≢◌, refl, sym, ◌∙◌, ap, true, false, ◌&&◌, List, [], ◌∷◌, arith, ltb, filter_by,
  if◌then◌else◌, ◌↔◌, subst,
}
use hybrid_quantum_cryptogra.Js.{lit, text_eq, to_lower_case, is_empty}
use hybrid_quantum_cryptogra.Sorting.{
  sort, sort-Perm, sort-Ordered, filter_by-filter_by, filter_by-or,
}
use hybrid_quantum_cryptogra.Approvals.Transactions.{Transaction}
use hybrid_quantum_cryptogra.Approvals.Criteria.{
  meets, risk_met, amount_met, search_met, Meets, meets_iff, Precedes, Sorted, Ordered-Sorted,
}
use hybrid_quantum_cryptogra.Approvals.Filters.{
  AmountRange, all, low, medium, high, very_high, SortBy, date_asc, date_desc, amount_asc,
  amount_desc, risk_desc, unsorted, Filters, level_is, by_risk, in_range, by_amount, is_hit,
  by_search, in_order, apply_filters,
}

in_order_total :
    (by : SortBy) (a b : Transaction) → in_order by a b ≡ false → in_order by b a ≡ true
unfolding in_order
in_order_total date_asc a b h = ground arith
in_order_total date_desc a b h = ground arith
in_order_total amount_asc a b h = ground arith
in_order_total amount_desc a b h = ground arith
in_order_total risk_desc a b h = ground arith
in_order_total unsorted a b h = ground arith

in_order_trans :
    (by : SortBy) (a b c : Transaction)
    → in_order by a b ≡ true
    → in_order by b c ≡ true
    → in_order by a c ≡ true
unfolding in_order
in_order_trans date_asc a b c h k = ground arith
in_order_trans date_desc a b c h k = ground arith
in_order_trans amount_asc a b c h k = ground arith
in_order_trans amount_desc a b c h k = ground arith
in_order_trans risk_desc a b c h k = ground arith
in_order_trans unsorted a b c h k = ground arith

by_risk-eq :
    (filters : Filters) (txs : List Transaction)
    → by_risk filters.risk_level txs ≡ filter_by (risk_met filters) txs
unfolding by_risk
by_risk-eq filters txs =
    filter_by-or (text_eq filters.risk_level (lit "all")) (level_is filters.risk_level) txs

all_amounts : (txs : List Transaction) → filter_by (λ tx. in_range all tx.amount) txs ≡ txs
unfolding filter_by in_range
all_amounts [] = refl
all_amounts (tx ∷ txs) = ground (arith, all_amounts txs)

by_amount-eq :
    (range : AmountRange) (txs : List Transaction)
    → by_amount range txs ≡ filter_by (λ tx. in_range range tx.amount) txs
unfolding by_amount
by_amount-eq all txs = sym (all_amounts txs)
by_amount-eq low txs = refl
by_amount-eq medium txs = refl
by_amount-eq high txs = refl
by_amount-eq very_high txs = refl

by_search-eq :
    (filters : Filters) (txs : List Transaction)
    → by_search filters.search_query txs ≡ filter_by (search_met filters) txs
unfolding by_search
by_search-eq filters txs =
    filter_by-or (is_empty filters.search_query) (is_hit (to_lower_case filters.search_query)) txs

filters_eq :
    (filters : Filters) (txs : List Transaction)
    → by_search filters.search_query
        (by_amount filters.amount_range (by_risk filters.risk_level txs))
      ≡ filter_by (meets filters) txs
filters_eq filters txs =
    by_search-eq filters (by_amount filters.amount_range (by_risk filters.risk_level txs))
    ∙ ap (filter_by (search_met filters)) (
        by_amount-eq filters.amount_range (by_risk filters.risk_level txs)
        ∙ ap (filter_by (amount_met filters)) (by_risk-eq filters txs)
        ∙ filter_by-filter_by (amount_met filters) (risk_met filters) txs)
    ∙ filter_by-filter_by (search_met filters) (λ tx. risk_met filters tx && amount_met filters tx)
        txs

-- The page shows the waiting transactions that meet all the criteria, each as often as it waits, and in
-- the chosen order: by the time of creation, the amount or the risk score, none being zero, rising or
-- falling as chosen. The criteria are the level of risk, the range of the amount and a text that one of
-- four fields mentions, upper and lower case alike; each may be off.
pub apply_filters-Ordered :
    (filters : Filters) (txs : List Transaction)
    → Permᴰ (apply_filters filters txs) (filter_by (meets filters) txs)
      × ((tx : Transaction) → (meets filters tx ≡ true) ↔ Meets filters tx)
      × Sorted (Precedes filters.sort_by) (apply_filters filters txs)
unfolding apply_filters
apply_filters-Ordered filters txs =
    let found =
      by_search filters.search_query
        (by_amount filters.amount_range (by_risk filters.risk_level txs)) in
    (
      subst (λ xs. Permᴰ (sort (in_order filters.sort_by) found) xs) (filters_eq filters txs)
          (sort-Perm (in_order filters.sort_by) found),
      meets_iff filters,
      Ordered-Sorted filters.sort_by _ (
          sort-Ordered (in_order filters.sort_by) (in_order_total filters.sort_by)
            (in_order_trans filters.sort_by) found),
    )

-- The range that an amount belongs to.
abbrev pub range_of : ℕ → AmountRange
range_of amount =
    if ltb amount 10000
    then low
    else if ltb amount 100000
    then medium
    else if ltb amount 1000000
    then high
    else very_high

-- The four ranges that the page offers divide up the amounts: each amount is found in one range, the
-- one that it belongs to, and in no other.
pub in_range_iff :
    (amount : ℕ) (range : AmountRange)
    → range ≢ all
    → (in_range range amount ≡ true) ↔ (range ≡ range_of amount)
unfolding in_range
in_range_iff amount all proper = absurd (proper refl)
in_range_iff amount low proper = ground arith
in_range_iff amount medium proper = ground arith
in_range_iff amount high proper = ground arith
in_range_iff amount very_high proper = ground arith
