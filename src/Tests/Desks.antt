-- ===== src/Tests/Desks.antt =====
-- ManagerCustomers.jsx and KYCVerification.jsx at concrete inputs.
use mathlib.Core.List.{Permᴰ}
use hybrid_quantum_cryptogra.Prelude.{
  ◌≡◌, ◌≢◌, some, refl, true, false, ◌||◌, none, [], ◌∷◌, All, arith, filter_by, map,
}
use hybrid_quantum_cryptogra.Js.{lit, text_eq, text_eq_iff, is_empty, or_empty, Lacks, text_lt}
use hybrid_quantum_cryptogra.Sorting.{sort, insert}
use hybrid_quantum_cryptogra.History.Export.{read_csv}
use hybrid_quantum_cryptogra.Answers.{answered}
use hybrid_quantum_cryptogra.Answers.Waiting.{World, sends, shows, Reach, here, next}
use hybrid_quantum_cryptogra.Accounts.{
  Account, Page, may_change, handle_view_details, details_loaded, open_status_modal,
  handle_status_change, details_shown, can_change, initial_page, empty_change, empty_forward,
  by_name, updating,
}
use hybrid_quantum_cryptogra.Accounts.Listing.{
  filtered, query_met, sorted_by, in_order, export_row, export_to_csv,
}
use hybrid_quantum_cryptogra.Accounts.Export.{read_csv-export_to_csv}
use hybrid_quantum_cryptogra.Accounts.Steps.{
  Desk, Event, initial_world, is_covered, limited, views, tells, opens_change, picks_status,
  confirms_change,
}
use hybrid_quantum_cryptogra.Accounts.Limits.{IsLimited, Reach-IsLimited}
use hybrid_quantum_cryptogra.Accounts.Races.{IsHonest, change_frozen}
use hybrid_quantum_cryptogra.Kyc.{
  Customer, is_pending, verifying, verify, shown_details, close_details, open_modal, confirm,
  details, statistics,
}
use hybrid_quantum_cryptogra.Kyc
use hybrid_quantum_cryptogra.Kyc.Steps
use hybrid_quantum_cryptogra.Kyc.Races
use hybrid_quantum_cryptogra.Kyc.Races.{verify_unseen}

abbrev ann : Account
ann = record {
  customer_id = lit "7";
  name = lit "Ann";
  account_number = lit "12345678";
  masked_account_number = lit "****5678";
  account_type = lit "SAVINGS";
  account_status = lit "ACTIVE";
  balance = lit "10.5";
  kyc_status = lit "verified";
  created_at = none;
}

abbrev bob : Account
bob = record ann { customer_id = lit "9"; name = lit "Bob, Jr."; account_status = lit "FROZEN" }

ann_open : may_change ann ≡ true
unfolding may_change text_eq lit
ann_open = refl

bob_frozen : may_change bob ≡ false
unfolding may_change text_eq lit
bob_frozen = refl

untrue : false ≡ true → ⊥
untrue e = cc

ids_differ : lit "7" ≢ lit "9"
unfolding text_eq lit
ids_differ e = untrue ((text_eq_iff (lit "7") (lit "9")).1 e)

change_frozen_example :
    (u : Desk (Unit {0})) × Reach (Event IsHonest) initial_world u
    × (u.page.selected_customer ≡ some bob)
    × (u.page.show_status_modal ≡ true)
    × (let w = sends (handle_status_change u.page) u in
        Event IsHonest u w × (w.sent ≡ updating (lit "9") (lit "ACTIVE") [] ∷ u.sent))
change_frozen_example = change_frozen ann bob ann_open bob_frozen ids_differ

abbrev marked : (w : Desk (Unit {0})) × Reach (Event IsHonest) initial_world w
unfolding initial_world initial_page sends shows handle_view_details details_loaded
    open_status_modal empty_change empty_forward handle_status_change is_covered details_shown
    can_change is_empty lit
marked = (
  _,
  next
      (next
        (next
          (next (next here (views (lit "7") refl)) (tells (lit "7") (answered ann) [] [] refl refl))
          (opens_change ann refl ann_open))
        (picks_status limited))
      (confirms_change refl refl refl),
)

Reach-IsLimited_example : All IsLimited (World.sent marked.0)
Reach-IsLimited_example = Reach-IsLimited marked.1

abbrev page : Page (Unit {0})
unfolding initial_page empty_change empty_forward
page = record initial_page {
  accounts = bob ∷ ann ∷ [];
  sort_config = record { key = some by_name; ascending = true };
}

by_their_names : filtered page ≡ ann ∷ bob ∷ []
unfolding filtered query_met sorted_by in_order text_lt sort insert is_empty lit initial_page
by_their_names = refl

ann_unquoted : All (Lacks b'"') (export_row ann)
unfolding export_row or_empty lit
ann_unquoted = omega arith

bob_unquoted : All (Lacks b'"') (export_row bob)
unfolding export_row or_empty lit
bob_unquoted = omega arith

page_unquoted : All (λ a. All (Lacks b'"') (export_row a)) (filtered page)
page_unquoted = rw by_their_names (ann_unquoted, (bob_unquoted, tt))

read_csv-export_to_csv_example :
    (read_csv (export_to_csv page) ≡ map export_row (filtered page))
    × Permᴰ
        (filtered page)
        (filter_by (λ a. is_empty page.query || query_met page.query a) page.accounts)
read_csv-export_to_csv_example = read_csv-export_to_csv page page_unquoted

abbrev handed_in : Customer
handed_in = record {
  id = lit "3";
  username = none;
  email = none;
  full_name = some (lit "Cay");
  kyc_status = lit "pending";
}

abbrev turned_down : Customer
turned_down = record handed_in { id = lit "4"; kyc_status = lit "rejected" }

handed_in-is_pending : is_pending handed_in ≡ true
unfolding is_pending text_eq lit
handed_in-is_pending = refl

customers_differ : lit "3" ≢ lit "4"
unfolding text_eq lit
customers_differ e = untrue ((text_eq_iff (lit "3") (lit "4")).1 e)

verify_unseen_example :
    (u : Kyc.Steps.Desk (Unit {0})) × Reach
      (Kyc.Steps.Event Races.IsHonest)
      Kyc.Steps.initial_desk
      u
    × (u.page.selected_customer ≡ some turned_down)
    × (shown_details u.page ≡ some handed_in)
    × (u.waiting ≡ details (lit "4") ∷ statistics ∷ [])
    × (let v = shows (close_details (open_modal verify turned_down u.page)) u in
        let w = sends (confirm v.page) v in
        Kyc.Steps.Event Races.IsHonest u v
        × Kyc.Steps.Event Races.IsHonest v w
        × (w.sent ≡ verifying (lit "4") [] ∷ u.sent))
verify_unseen_example = verify_unseen handed_in turned_down handed_in-is_pending customers_differ
