-- ===== src/Tests/Access.antt =====
-- rbacService.js, PermissionGate.jsx and Pagination.jsx at concrete inputs.
use hybrid_quantum_cryptogra.Prelude.{
  ℕ, ◌≡◌, refl, ◌↔◌, true, false, none, some, List, [], ◌∷◌, arith, length,
}
use hybrid_quantum_cryptogra.Js.{
  lit, text_eq, includes, to_lower_case, or_empty, get_property, object_prototype_keys, ok, throw,
  type_error, some_call,
}
use hybrid_quantum_cryptogra.Roles.{User, user_role}
use hybrid_quantum_cryptogra.Rbac.{
  number, role_permissions, hierarchy, has_permission, has_any_permission, get_role_level,
  has_higher_privilege,
}
use hybrid_quantum_cryptogra.Rbac.Permissions.{has_permission-eq-throw_iff}
use hybrid_quantum_cryptogra.PermissionGate.{children, permission_gate}
use hybrid_quantum_cryptogra.Pagination.{get_page_numbers, handle_next, page_count}
use hybrid_quantum_cryptogra.Pagination.Window.{Rises, Offers, get_page_numbers-Rises}
use hybrid_quantum_cryptogra.Pagination.Slices.{pages, pages-page_count}

rbac : Unit {0}
unfolding has_permission has_any_permission role_permissions get_property includes text_eq lit
    to_lower_case or_empty object_prototype_keys get_role_level hierarchy some_call user_role
    permission_gate
rbac = tt

clerk_views : has_permission (some (lit "Auditor_Clerk")) (lit "view_all_transactions") ≡ ok true
unfolding rbac
clerk_views = refl

customer_creates : has_permission (some (lit "Customer")) (lit "create_transaction") ≡ ok true
unfolding rbac
customer_creates = refl

guest_level : get_role_level none ≡ number 0
unfolding rbac
guest_level = refl

constructor_role : has_permission (some (lit "Constructor")) (lit "manage_users") ≡ throw type_error
unfolding rbac
constructor_role = refl

abbrev ann : User
ann = record { username = lit "ann"; role = some (lit "manager") }

gate_opens :
    permission_gate
      (some ann)
      (lit "create_transaction" ∷ lit "approve_transaction" ∷ [])
      (lit "any")
    ≡ ok children
unfolding rbac
gate_opens = refl

has_permission-eq-throw_iff_example :
    (has_permission (some (lit "Constructor")) (lit "manage_users") ≡ throw type_error)
    ↔ (includes object_prototype_keys (to_lower_case (or_empty (some (lit "Constructor")))) ≡ true)
has_permission-eq-throw_iff_example =
    has_permission-eq-throw_iff (some (lit "Constructor")) (lit "manage_users")

admin_above_manager : has_higher_privilege (some (lit "system_admin")) (some (lit "manager")) ≡ true
unfolding rbac has_higher_privilege
admin_above_manager = refl

manager_above_customer : has_higher_privilege (some (lit "manager")) (some (lit "customer")) ≡ true
unfolding rbac has_higher_privilege
manager_above_customer = refl

not_any : text_eq (lit "all") (lit "any") ≡ false
unfolding rbac
not_any = refl

get_page_numbers-Rises_example :
    Rises 0 20 (get_page_numbers 10 20)
    × Offers 1 (get_page_numbers 10 20)
    × Offers 20 (get_page_numbers 10 20)
    × Offers 10 (get_page_numbers 10 20)
get_page_numbers-Rises_example = get_page_numbers-Rises 10 20 (omega arith) (omega arith)

next_of_nine : handle_next 9 20 ≡ some 10
unfolding handle_next
next_of_nine = refl

abbrev three_items : List ℕ
three_items = 5 ∷ 6 ∷ 7 ∷ []

pages-page_count_example : pages (page_count (length three_items) 2) 2 three_items ≡ three_items
pages-page_count_example = pages-page_count 2 three_items (omega arith)
