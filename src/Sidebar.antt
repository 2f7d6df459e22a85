-- ===== src/Sidebar.antt =====
-- frontend/src/components/common/RoleBasedSidebar.jsx: the links that the sidebar offers, and which of its
-- groups are open.
pub mod Opening
pub mod Granting
use hybrid_quantum_cryptogra.Prelude.{
  Bool, true, false, not, ◌||◌, Option, none, some, List, [], ◌∷◌, if◌then◌else◌,
}
use hybrid_quantum_cryptogra.Js.{
  Text, lit, text_eq, to_lower_case, Property, own, inherited, absent, get_property, Result, ok,
  throw,
}
use hybrid_quantum_cryptogra.Roles.{User, user_role, customer, manager, auditor_clerk, system_admin}
use hybrid_quantum_cryptogra.Navigation.{get_navigation_for_role, filter_navigation_by_permissions}
use hybrid_quantum_cryptogra.Navigation.Items.{NavLink, NavItem, link, group}
use hybrid_quantum_cryptogra.Keystore.Platform.{get, put}

-- `open_groups` is the object with the ids of groups as its keys.
pub record Sidebar : Type 0 where
  pub navigation_items : List NavItem
  pub is_collapsed : Bool
  pub open_groups : List (Text × Bool)

unfoldable pub initial_sidebar : Sidebar
initial_sidebar = record { navigation_items = []; is_collapsed = false; open_groups = [] }

-- The permissions that the sidebar takes a role to have.
unfoldable pub user_permissions : List (Text × List Text)
user_permissions =
    (
      customer,
      lit "view_own_account"
          ∷ lit "view_own_transactions"
          ∷ lit "create_transaction"
          ∷ lit "view_own_certificate"
          ∷ lit "view_own_audit"
          ∷ [],
    )
    ∷ (
      manager,
      lit "view_own_account"
          ∷ lit "view_own_transactions"
          ∷ lit "view_own_certificate"
          ∷ lit "view_own_audit"
          ∷ lit "view_all_customers"
          ∷ lit "approve_transaction"
          ∷ lit "reject_transaction"
          ∷ lit "revoke_certificate"
          ∷ lit "reset_device_binding"
          ∷ lit "view_branch_audit"
          ∷ lit "create_escalation"
          ∷ lit "view_escalations"
          ∷ lit "view_manager_reports"
          ∷ [],
    )
    ∷ (
      auditor_clerk,
      lit "view_own_certificate"
          ∷ lit "view_own_audit"
          ∷ lit "view_all_audit_logs"
          ∷ lit "view_all_transactions"
          ∷ lit "verify_transaction_integrity"
          ∷ lit "view_all_certificates"
          ∷ lit "export_audit_reports"
          ∷ lit "view_security_events"
          ∷ [],
    )
    ∷ (
      system_admin,
      lit "view_own_certificate"
          ∷ lit "view_own_audit"
          ∷ lit "manage_users"
          ∷ lit "manage_roles"
          ∷ lit "manage_permissions"
          ∷ lit "issue_certificate"
          ∷ lit "manage_crl"
          ∷ lit "rotate_ca_keys"
          ∷ lit "kill_sessions"
          ∷ lit "view_global_audit"
          ∷ lit "view_all_security_events"
          ∷ lit "manage_system_config"
          ∷ lit "view_all_audit_logs"
          ∷ lit "view_all_transactions"
          ∷ lit "view_all_certificates"
          ∷ [],
    )
    ∷ []

-- `found || []`; what an object inherits is no array.
as_permissions : Property (List Text) → Option (List Text)
as_permissions (own permissions) = some permissions
as_permissions inherited = none
as_permissions absent = some []

unfoldable pub get_user_permissions : Text → Option (List Text)
unfolding as_permissions
get_user_permissions role = as_permissions (get_property (to_lower_case role) user_permissions)

with_items : Text → Result (List NavItem) → Sidebar → Result Sidebar
with_items role (throw e) s = throw e
with_items role (ok items) s = ok (record s {
  navigation_items = filter_navigation_by_permissions (some items) (get_user_permissions role);
})

-- What runs when the user changes.
unfoldable pub refresh : Option User → Sidebar → Result Sidebar
unfolding with_items
refresh user s = elim (user_role user) [
  | none ↦ ok (record s { navigation_items = [] })
  | some role ↦ with_items role (get_navigation_for_role (some role)) s
]

-- `children.some((child) => child.path === path)`
unfoldable pub has_path : Text → List NavLink → Bool
has_path path [] = false
has_path path (l ∷ links) = text_eq l.path path || has_path path links

-- The groups that hold the page, as open ones.
unfoldable pub active_groups : Text → List NavItem → List (Text × Bool)
active_groups path [] = []
active_groups path (link l ∷ items) = active_groups path items
active_groups path (group g ∷ items) =
    let rest = active_groups path items in
    if has_path path g.children then put g.id true rest else rest

replace_groups : List (Text × Bool) → Sidebar → Sidebar
replace_groups [] s = s
replace_groups (entry ∷ entries) s = record s { open_groups = entry ∷ entries }

-- What runs when the page or the links change; only groups that are to be opened replace those that are
-- open.
unfoldable pub open_active : (path : Text) → Sidebar → Sidebar
unfolding replace_groups
open_active path s = replace_groups (active_groups path s.navigation_items) s

unfoldable pub handle_collapse_toggle : Sidebar → Sidebar
handle_collapse_toggle s =
    if s.is_collapsed
    then record s { is_collapsed = false }
    else record s { is_collapsed = true; open_groups = [] }

-- `openGroups[id]`, read as a condition.
unfoldable pub is_open : Text → Sidebar → Bool
is_open id s = elim (get id s.open_groups) [ none ↦ false | some opened ↦ opened ]

unfoldable pub toggle_group : Text → Sidebar → Sidebar
toggle_group id s = record s { open_groups = put id (not (is_open id s)) s.open_groups }
