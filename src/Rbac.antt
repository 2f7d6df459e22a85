-- ===== src/Rbac.antt =====
-- frontend/src/services/rbacService.js: the permissions of each role as the client knows them, and
-- the hierarchy of the roles. The calls of the server's endpoints in that file are not modelled.
pub mod Permissions
pub mod Hierarchy
use hybrid_quantum_cryptogra.Prelude.{
  ℕ, ◌<◌, Bool, true, false, not, Option, none, some, List, [], ◌∷◌, if◌then◌else◌, ltb, leb,
}
use hybrid_quantum_cryptogra.Js.{
  text_lt, Text, lit, text_eq, includes, to_lower_case, or_empty, own, inherited, absent,
  get_property, Result, ok, throw, type_error, some_call, every_call, Property,
}
use hybrid_quantum_cryptogra.Roles.{customer, manager, auditor_clerk, system_admin}

unfoldable pub role_permissions : List (Text × List Text)
role_permissions =
    (
      customer,
      lit "view_own_account"
          ∷ lit "view_own_transactions"
          ∷ lit "create_transaction"
          ∷ lit "view_own_certificate"
          ∷ lit "view_own_audit"
          ∷ [],
    )
    ∷ (
      manager,
      lit "view_own_account"
          ∷ lit "view_own_transactions"
          ∷ lit "view_own_certificate"
          ∷ lit "view_own_audit"
          ∷ lit "view_all_customers"
          ∷ lit "approve_transaction"
          ∷ lit "reject_transaction"
          ∷ lit "revoke_certificate"
          ∷ lit "reset_device_binding"
          ∷ lit "view_branch_audit"
          ∷ lit "create_escalation"
          ∷ lit "view_escalations"
          ∷ lit "view_manager_reports"
          ∷ [],
    )
    ∷ (
      auditor_clerk,
      lit "view_own_certificate"
          ∷ lit "view_own_audit"
          ∷ lit "view_all_audit_logs"
          ∷ lit "view_all_transactions"
          ∷ lit "verify_transaction_integrity"
          ∷ lit "view_all_certificates"
          ∷ lit "export_audit_reports"
          ∷ lit "view_security_events"
          ∷ [],
    )
    ∷ (
      system_admin,
      lit "view_own_certificate"
          ∷ lit "view_own_audit"
          ∷ lit "manage_users"
          ∷ lit "manage_roles"
          ∷ lit "manage_permissions"
          ∷ lit "issue_certificate"
          ∷ lit "manage_crl"
          ∷ lit "rotate_ca_keys"
          ∷ lit "kill_sessions"
          ∷ lit "view_global_audit"
          ∷ lit "view_all_security_events"
          ∷ lit "manage_system_config"
          ∷ lit "view_all_audit_logs"
          ∷ lit "view_all_transactions"
          ∷ lit "view_all_certificates"
          ∷ [],
    )
    ∷ []

-- `(table[normalizedRole] || []).includes(name)`: what `Object.prototype` holds has no `includes`.
unfoldable pub permitted : Property (List Text) → Text → Result Bool
permitted (own permissions) name = ok (includes permissions name)
permitted inherited name = throw type_error
permitted absent name = ok false

unfoldable pub has_permission : Option Text → Text → Result Bool
unfolding permitted
has_permission role name =
    permitted (get_property (to_lower_case (or_empty role)) role_permissions) name

unfoldable pub has_any_permission : Option Text → List Text → Result Bool
has_any_permission role names = some_call (has_permission role) names

unfoldable pub has_all_permissions : Option Text → List Text → Result Bool
has_all_permissions role names = every_call (has_permission role) names

-- What `getRoleLevel` returns: a number, or the object that `Object.prototype` holds under the name,
-- here with the string that it becomes in a comparison.
pub data Level : Type 0 where
  number : ℕ → Level
  object : Text → Level

unfoldable pub hierarchy : List (Text × ℕ)
hierarchy = (customer, 1) ∷ (manager, 2) ∷ (auditor_clerk, 3) ∷ (system_admin, 4) ∷ []

-- A name in lower case is inherited only if it is `constructor` or `__proto__`.
inherited_text : Text → Text
inherited_text name =
    if text_eq name (lit "constructor")
    then lit "function Object() { [native code] }"
    else lit "[object Object]"

level_of : Text → Property ℕ → Level
level_of name (own n) = number n
level_of name inherited = object (inherited_text name)
level_of name absent = number 0

unfoldable pub get_role_level : Option Text → Level
unfolding level_of inherited_text
get_role_level role_name =
    level_of (to_lower_case (or_empty role_name))
      (get_property (to_lower_case (or_empty role_name)) hierarchy)

-- `a > b`: numbers as numbers, two objects as strings, and a mixed comparison is one with NaN.
unfoldable pub level_gt : Level → Level → Bool
unfolding text_lt
level_gt (number a) (number b) = ltb b a
level_gt (object s) (object t) = text_lt t s
level_gt _ _ = false

unfoldable pub has_higher_privilege : Option Text → Option Text → Bool
unfolding level_gt
has_higher_privilege role1 role2 = level_gt (get_role_level role1) (get_role_level role2)
