-- ===== src/Navigation.antt =====
-- frontend/src/config/navigationConfig.js: the links that the sidebar offers to each role.
pub mod Items
pub mod Config
pub mod Permissions
use hybrid_quantum_cryptogra.Prelude.{
  Bool, true, false, not, Option, none, some, List, [], ◌∷◌, ◌++◌, if◌then◌else◌, filter_by,
}
use hybrid_quantum_cryptogra.Js.{
  Text, lit, includes, to_lower_case, Property, own, inherited, absent, get_property, Result, ok,
  throw, type_error,
}
use hybrid_quantum_cryptogra.Roles.{truthy, customer, manager, auditor_clerk, system_admin}
use Items.{NavItem, item_roles, item_permission}
use Config.{
  customer_navigation, manager_navigation, auditor_clerk_navigation, system_admin_navigation,
  common_navigation,
}

unfoldable pub navigation_config : List (Text × List NavItem)
unfolding customer_navigation manager_navigation auditor_clerk_navigation system_admin_navigation
    common_navigation
navigation_config =
    (customer, customer_navigation)
    ∷ (manager, manager_navigation)
    ∷ (auditor_clerk, auditor_clerk_navigation)
    ∷ (system_admin, system_admin_navigation)
    ∷ (lit "common", common_navigation)
    ∷ []

-- `[...(found || []), ...common]`: an object that is no array cannot be spread.
unfoldable pub with_common : Property (List NavItem) → Result (List NavItem)
with_common (own items) = ok (items ++ common_navigation)
with_common inherited = throw type_error
with_common absent = ok common_navigation

unfoldable pub get_navigation_for_role : Option Text → Result (List NavItem)
unfolding with_common
get_navigation_for_role role = elim (truthy role) [
  | none ↦ ok []
  | some name ↦ with_common (get_property (to_lower_case name) navigation_config)
]

-- Whether the permissions of the user, where there is an array of them, hold the required one.
unfoldable pub granted : Option (List Text) → Option Text → Bool
granted permissions none = true
granted none (some required) = false
granted (some permissions) (some required) = includes permissions required

unfoldable pub filter_navigation_by_permissions :
    Option (List NavItem) → Option (List Text) → List NavItem
unfolding granted
filter_navigation_by_permissions none user_permissions = []
filter_navigation_by_permissions (some nav_items) user_permissions =
    filter_by (λ item. granted user_permissions (truthy (item_permission item))) nav_items

item_visible : NavItem → Text → Option (List Text) → Bool
item_visible item role user_permissions =
    if not (includes (item_roles item) (to_lower_case role))
    then false
    else granted user_permissions (truthy (item_permission item))

unfoldable pub is_navigation_item_visible : Option NavItem → Option Text → Option (List Text) → Bool
unfolding item_visible granted
is_navigation_item_visible none user_role user_permissions = false
is_navigation_item_visible (some item) user_role user_permissions = elim (truthy user_role) [
  | none ↦ false
  | some role ↦ item_visible item role user_permissions
]
