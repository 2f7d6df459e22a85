-- ===== src/Accounts/Export.antt =====
-- frontend/src/pages/manager/ManagerCustomers/ManagerCustomers.jsx: what the exported file holds.
use mathlib.Core.List.{Permᴰ}
use mathlib.Core.List.Permᴰ
use hybrid_quantum_cryptogra.Prelude.{
  ◌≡◌, refl, subst, ◌||◌, Option, none, some, List, map, filter_by, All, arith,
}
use hybrid_quantum_cryptogra.Js.{lit, is_empty, join, Lacks}
use hybrid_quantum_cryptogra.Sorting.{sort-Perm, filter_by-or}
use hybrid_quantum_cryptogra.History.Export.{read_csv}
use hybrid_quantum_cryptogra.Answers.Reading.{read_csv-csv_of, map-Unquoted}
use hybrid_quantum_cryptogra.Accounts.{Account, SortKey, SortConfig, Page}
use hybrid_quantum_cryptogra.Accounts.Listing.{
  query_met, in_order, sorted_by, filtered, export_headers, export_row, export_to_csv,
}

sorted_by-Perm :
    (key : Option SortKey) (config : SortConfig) (accounts : List Account)
    → config.key ≡ key
    → Permᴰ (sorted_by config accounts) accounts
unfolding sorted_by
sorted_by-Perm none config accounts e = rw (e, sorted_by) (Permᴰ.refl accounts)
sorted_by-Perm (some key) config accounts e =
    rw (e, sorted_by) (sort-Perm (in_order key config.ascending) accounts)

headers_on_a_line : Lacks b'\n' (join b',' export_headers)
unfolding export_headers join lit
headers_on_a_line = omega arith

module _ {Statistics : Type 0} where
  -- The exported file gives back a row of eight texts for each account that the table shows, where no text
  -- holds a quotation mark; and the table shows the accounts that meet the query, each as often as it was
  -- loaded, whatever the order chosen.
  pub read_csv-export_to_csv :
      (p : Page Statistics)
      → All (λ a. All (Lacks b'"') (export_row a)) (filtered p)
      → (read_csv (export_to_csv p) ≡ map export_row (filtered p))
        × Permᴰ (filtered p) (filter_by (λ a. is_empty p.query || query_met p.query a) p.accounts)
  unfolding export_to_csv filtered export_row
  read_csv-export_to_csv p h = (
    read_csv-csv_of export_headers (map export_row (filtered p)) headers_on_a_line
        (map-Unquoted export_row (filtered p) (λ a e. cc) h),
    subst (λ xs. Permᴰ (filtered p) xs)
        (filter_by-or (is_empty p.query) (query_met p.query) p.accounts)
        (sorted_by-Perm p.sort_config.key p.sort_config _ refl),
  )
