-- ===== src/Tests/Queue.antt =====
-- The page of waiting transactions at concrete inputs.
use mathlib.Core.List.{Permᴰ}
use hybrid_quantum_cryptogra.Prelude.{
  ℕ, ◌≡◌, ◌≢◌, ◌↔◌, true, refl, false, none, some, List, [], ◌∷◌, All, filter_by,
}
use hybrid_quantum_cryptogra.Js.{lit, is_empty, text_eq, to_lower_case}
use hybrid_quantum_cryptogra.Approvals.Transactions.{Transaction}
use hybrid_quantum_cryptogra.Approvals.Filters.{
  all, low, medium, amount_desc, Filters, in_range, in_order, apply_filters, by_risk, by_amount,
  by_search, is_hit, mentions,
}
use hybrid_quantum_cryptogra.Sorting.{sort, insert}
use hybrid_quantum_cryptogra.Approvals.Filtering.{apply_filters-Ordered}
use hybrid_quantum_cryptogra.Approvals.Criteria.{meets, Meets, Precedes, Sorted}
use hybrid_quantum_cryptogra.Approvals.Decisions.{
  Page, answered, failed, Event, rejects, enters, approves, run,
}
use hybrid_quantum_cryptogra.Approvals.Masking.{mask_account}
use hybrid_quantum_cryptogra.Approvals.Outcomes.{IsReasoned, IsUnlocked, run-IsReasoned}

abbrev transfer : ℕ → Transaction
transfer amount = record {
  id = some (lit "tx");
  from_account = some (lit "ACC-1");
  to_account = some (lit "ACC-2");
  purpose = none;
  amount = amount;
  created_at = 0;
  risk = none;
}

abbrev waiting : List Transaction
waiting = transfer 20000 ∷ transfer 500 ∷ transfer 70000 ∷ []

abbrev medium_first : Filters
medium_first = record {
  risk_level = lit "all";
  amount_range = medium;
  sort_by = amount_desc;
  search_query = lit "acc-1";
}

medium_found : apply_filters medium_first waiting ≡ transfer 70000 ∷ transfer 20000 ∷ []
unfolding apply_filters by_risk by_amount by_search is_hit mentions in_range sort insert in_order
    is_empty lit filter_by text_eq to_lower_case
medium_found = refl

apply_filters-Ordered_example :
    Permᴰ (apply_filters medium_first waiting) (filter_by (meets medium_first) waiting)
    × ((tx : Transaction) → (meets medium_first tx ≡ true) ↔ Meets medium_first tx)
    × Sorted (Precedes amount_desc) (apply_filters medium_first waiting)
apply_filters-Ordered_example = apply_filters-Ordered medium_first waiting

low-ne-all : low ≢ all
low-ne-all h = cc

abbrev page : Page
page = record {
  transactions = waiting;
  loading = false;
  error = none;
  action_loading = false;
  show_reject_modal = some (lit "tx");
  show_approve_modal = none;
  rejection_reason = lit "  ";
  success_message = none;
}

abbrev attempts : List Event
attempts =
    rejects (lit "tx") (answered tt) (answered none)
    ∷ enters (lit "unknown payee")
    ∷ rejects (lit "tx") (answered tt) (answered (some []))
    ∷ []

run-IsReasoned_example : All IsReasoned (run attempts page).1
run-IsReasoned_example = run-IsReasoned attempts page

page-IsUnlocked : IsUnlocked page
page-IsUnlocked = record { idle = refl; loaded = refl }

abbrev refusal : Event
refusal = approves (lit "tx") (failed none) (answered none)

account_shown : mask_account (some (lit "ACC-1234-5678")) ≡ some (lit "ACC-****5678")
unfolding mask_account lit
account_shown = refl
