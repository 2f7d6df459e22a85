-- ===== src/Sidebar/Granting.antt =====
-- frontend/src/components/common/RoleBasedSidebar.jsx: the permissions of the sidebar are those of
-- frontend/src/services/rbacService.js.
use hybrid_quantum_cryptogra.Prelude.{◌≡◌, ◌↔◌, refl, true, some, List, arith}
use hybrid_quantum_cryptogra.Js.{
  Text, to_lower_case, or_empty, includes, Property, own, inherited, absent, get_property, ok,
}
use hybrid_quantum_cryptogra.Rbac.{role_permissions, permitted, has_permission}
use hybrid_quantum_cryptogra.Navigation.{granted}
use hybrid_quantum_cryptogra.Sidebar.{user_permissions, as_permissions, get_user_permissions}

same_table : user_permissions ≡ role_permissions
unfolding user_permissions role_permissions
same_table = refl

permitted_iff :
    (found : Property (List Text)) (name : Text)
    → (permitted found name ≡ ok true) ↔ (granted (as_permissions found) (some name) ≡ true)
unfolding permitted granted as_permissions includes
permitted_iff (own permissions) name = ground arith
permitted_iff inherited name = ground arith
permitted_iff absent name = ground arith

-- The sidebar grants a permission to a role exactly where the permission checks find it.
has_permission-granted_iff :
    (role name : Text)
    → (has_permission (some role) name ≡ ok true)
      ↔ (granted (get_user_permissions role) (some name) ≡ true)
unfolding has_permission get_user_permissions or_empty
has_permission-granted_iff role name =
    rw same_table (permitted_iff (get_property (to_lower_case role) role_permissions) name)
