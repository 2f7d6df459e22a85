-- ===== src/PermissionGate.antt =====
-- frontend/src/components/common/PermissionGate.jsx: the components and hooks that show a part of a
-- page to some users only. The user is that of the authentication context.
pub mod Soundness
use hybrid_quantum_cryptogra.Prelude.{
  ℕ, Bool, true, false, Option, none, some, List, map, if◌then◌else◌, leb,
}
use hybrid_quantum_cryptogra.Js.{
  Text, lit, text_eq, includes, to_lower_case, or_empty, Result, ok, ◌>>=◌,
}
use hybrid_quantum_cryptogra.Roles.{User, user_role}
use hybrid_quantum_cryptogra.Rbac.{
  Level, number, object, has_permission, has_any_permission, has_all_permissions, get_role_level,
}

-- What a gate renders.
pub data Rendered : Type 0 where
  children fallback : Rendered

abbrev render : Bool → Rendered
render true = children
render false = fallback

check_mode : Text → Text → List Text → Result Bool
check_mode match_mode role permissions =
    if text_eq match_mode (lit "any")
    then has_any_permission (some role) permissions
    else has_all_permissions (some role) permissions

-- A single permission is passed as a list of one, as `Array.isArray` decides in the source.
unfoldable pub permission_gate : Option User → List Text → Text → Result Rendered
unfolding check_mode
permission_gate user permissions match_mode = elim (user_role user) [
  | none ↦ ok fallback
  | some role ↦ check_mode match_mode role permissions >>= λ has_access. ok (render has_access)
]

unfoldable pub role_gate : Option User → List Text → Rendered
role_gate user allowed_roles = elim (user_role user) [
  | none ↦ fallback
  | some role ↦ render (includes (map to_lower_case allowed_roles) (to_lower_case role))
]

reaches : Level → ℕ → Bool
reaches (number level) minimum = leb minimum level
reaches (object _) minimum = false

unfoldable pub hierarchy_gate : Option User → ℕ → Rendered
unfolding reaches
hierarchy_gate user minimum_level = elim (user_role user) [
  | none ↦ fallback
  | some role ↦ render (reaches (get_role_level (some role)) minimum_level)
]

unfoldable pub use_permission : Option User → Text → Result Bool
use_permission user permission_name = elim (user_role user) [
  | none ↦ ok false
  | some role ↦ has_permission (some role) permission_name
]

unfoldable pub use_permissions : Option User → List Text → Text → Result Bool
unfolding check_mode
use_permissions user permission_names match_mode = elim (user_role user) [
  | none ↦ ok false
  | some role ↦ check_mode match_mode role permission_names
]

unfoldable pub use_has_role : Option User → Option Text → Bool
use_has_role user role_name = elim (user_role user) [
  | none ↦ false
  | some role ↦ text_eq (to_lower_case role) (to_lower_case (or_empty role_name))
]
