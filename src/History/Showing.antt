-- ===== src/History/Showing.antt =====
-- frontend/src/pages/customer/TransactionHistory/TransactionHistory.jsx: what is shown without filters.
use mathlib.Core.List.{Permᴰ}
use hybrid_quantum_cryptogra.Prelude.{
  ◌≡◌, refl, subst, true, Option, none, some, List, [], ◌∷◌, filter_by, every, filter_by_all, arith,
}
use hybrid_quantum_cryptogra.Js.{Text, lit, text_eq, to_lower_case, trim, is_empty, ℤ}
use hybrid_quantum_cryptogra.Sorting.{sort, sort-Perm}
use hybrid_quantum_cryptogra.History.{
  Stamp, Transaction, Filters, View, meets, in_order, filtered_transactions, filters_pristine,
  is_missing, account_met, search_met, direction_met, status_met, not_before, not_after,
}

no_query : (s : Text) → is_empty s ≡ true → is_empty (to_lower_case (trim s)) ≡ true
unfolding is_empty to_lower_case trim
no_query [] h = refl
no_query (c ∷ s) h = cc

no_account : (f : Filters) (tx : Transaction) → is_empty f.account ≡ true → account_met f tx ≡ true
unfolding account_met
no_account f tx h = rw (no_query f.account h) refl

no_search : (f : Filters) (tx : Transaction) → is_empty f.search ≡ true → search_met f tx ≡ true
unfolding search_met
no_search f tx h = rw (no_query f.search h) refl

any_direction :
    (f : Filters) (tx : Transaction)
    → text_eq f.direction (lit "ALL") ≡ true
    → direction_met f tx ≡ true
unfolding direction_met
any_direction f tx h = rw h refl

any_status :
    (f : Filters) (tx : Transaction) → text_eq f.status (lit "ALL") ≡ true → status_met f tx ≡ true
unfolding status_met
any_status f tx h = rw h refl

no_start :
    (boundary : Option ℤ) (stamp : Stamp)
    → is_missing boundary ≡ true
    → not_before boundary stamp ≡ true
unfolding is_missing not_before
no_start none stamp h = refl
no_start (some b) stamp h = cc

no_end :
    (boundary : Option ℤ) (stamp : Stamp)
    → is_missing boundary ≡ true
    → not_after boundary stamp ≡ true
unfolding is_missing not_after
no_end none stamp h = refl
no_end (some b) stamp h = cc

filters_pristine-meets :
    (f : Filters) (tx : Transaction) → filters_pristine f ≡ true → meets f tx ≡ true
unfolding filters_pristine meets
filters_pristine-meets f tx h = ground (
  arith,
  any_direction f tx,
  any_status f tx,
  no_account f tx,
  no_search f tx,
  no_start f.start_date tx.created_at,
  no_end f.end_date tx.created_at,
)

every-meets :
    (f : Filters) (txs : List Transaction) → filters_pristine f ≡ true → every (meets f) txs ≡ true
unfolding every
every-meets f [] h = refl
every-meets f (tx ∷ txs) h = rw (filters_pristine-meets f tx h) (every-meets f txs h)

-- Where the button that clears the filters is disabled, every transaction is shown, as often as it is in
-- the history.
pub filters_pristine-filtered_transactions :
    (v : View) → filters_pristine v.filters ≡ true → Permᴰ (filtered_transactions v) v.transactions
unfolding filtered_transactions
filters_pristine-filtered_transactions v h =
    subst
      (λ txs.
        Permᴰ (sort (in_order v.sort_config) (filter_by (meets v.filters) v.transactions)) txs)
      (filter_by_all (meets v.filters) v.transactions (every-meets v.filters v.transactions h))
      (sort-Perm (in_order v.sort_config) (filter_by (meets v.filters) v.transactions))
