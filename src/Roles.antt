-- ===== src/Roles.antt =====
-- frontend/src/utils/roleUtils.js, and the part of the server's user object that access control
-- reads.
use hybrid_quantum_cryptogra.Prelude.{Bool, false, Option, none, some, List, if◌then◌else◌}
use hybrid_quantum_cryptogra.Js.{Text, lit, text_eq, includes, is_empty}

-- The user that the server sends; a missing `role` is `none`.
pub record User : Type 0 where
  pub username : Text
  pub role : Option Text

-- A string that may be missing, read as a condition: `none` where it is missing or empty.
unfoldable pub truthy : Option Text → Option Text
unfolding is_empty
truthy none = none
truthy (some s) = if is_empty s then none else some s

-- `!user || !user.role` is `none`; otherwise the role.
unfoldable pub user_role : Option User → Option Text
unfolding truthy
user_role none = none
user_role (some user) = truthy user.role

abbrev pub customer : Text
customer = lit "customer"

abbrev pub manager : Text
manager = lit "manager"

abbrev pub auditor_clerk : Text
auditor_clerk = lit "auditor_clerk"

abbrev pub system_admin : Text
system_admin = lit "system_admin"

dashboard_of : Text → Text
dashboard_of role =
    if text_eq role customer
    then lit "/dashboard"
    else if text_eq role auditor_clerk
    then lit "/dashboard"
    else if text_eq role manager
    then lit "/manager/dashboard"
    else if text_eq role system_admin
    then lit "/admin/dashboard"
    else lit "/login"

-- No case is equal to a missing role.
unfoldable pub get_dashboard_path_by_role : Option Text → Text
unfolding dashboard_of
get_dashboard_path_by_role none = lit "/login"
get_dashboard_path_by_role (some role) = dashboard_of role

unfoldable pub is_role_allowed : Option Text → List Text → Bool
unfolding is_empty includes
is_role_allowed none allowed_roles = false
is_role_allowed (some role) allowed_roles =
    if is_empty role then false else includes allowed_roles role

unfoldable pub is_visible_for_role : Option Text → List Text → Bool
unfolding is_role_allowed
is_visible_for_role role visible_for = is_role_allowed role visible_for
