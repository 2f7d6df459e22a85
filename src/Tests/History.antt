-- ===== src/Tests/History.antt =====
-- TransactionHistory.jsx at concrete inputs.
use hybrid_quantum_cryptogra.Prelude.{
  ◌≡◌, refl, filter_by, true, false, none, some, [], ◌∷◌, arith, All,
}
use hybrid_quantum_cryptogra.Js.{lit, text_eq, is_empty, pos, or_empty, Lacks, to_lower_case, trim}
use hybrid_quantum_cryptogra.History.{
  Transaction, View, moment, default_filters, by_date, filtered_transactions, filters_pristine,
  row_of, meets, direction_met, status_met, account_met, search_met, not_before, not_after,
}

abbrev rent : Transaction
rent = record {
  id = lit "1";
  direction = lit "SENT";
  from_account = some (lit "ACC1");
  to_account = some (lit "ACC2");
  amount = lit "70";
  value = pos 70;
  status = lit "completed";
  purpose = some (lit "rent, May");
  created_at = moment (pos 5);
  created_text = lit "5/1/2026, 9:00 AM";
}

abbrev gift : Transaction
gift = record rent { id = lit "2"; purpose = none; created_at = moment (pos 9) }

abbrev view : View
view = record {
  transactions = rent ∷ gift ∷ [];
  filters = default_filters;
  sort_config = record { key = by_date; ascending = false };
  current_page = 1;
  items_per_page = 10;
}

pristine : filters_pristine view.filters ≡ true
unfolding filters_pristine text_eq lit is_empty
pristine = refl

newest_first : filtered_transactions view ≡ gift ∷ rent ∷ []
unfolding filtered_transactions filter_by to_lower_case trim meets direction_met status_met
    account_met search_met not_before not_after text_eq lit is_empty
newest_first = refl

rent_unquoted : All (Lacks b'"') (row_of rent)
unfolding lit or_empty
rent_unquoted = omega arith

gift_unquoted : All (Lacks b'"') (row_of gift)
unfolding lit or_empty
gift_unquoted = omega arith

shown_unquoted : All (λ tx. All (Lacks b'"') (row_of tx)) (filtered_transactions view)
shown_unquoted = rw newest_first (gift_unquoted, (rent_unquoted, tt))
