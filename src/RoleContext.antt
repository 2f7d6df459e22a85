-- ===== src/RoleContext.antt =====
-- frontend/src/context/RoleContext.jsx: the role that the components share.
use hybrid_quantum_cryptogra.Prelude.{
  ◌≡◌, refl, Bool, true, false, ◌&&◌, Option, none, some, List, if◌then◌else◌,
}
use hybrid_quantum_cryptogra.Js.{Text, includes, is_empty}
use hybrid_quantum_cryptogra.Roles.{User, user_role, is_role_allowed}

-- The state once the effect has run for a user and the flag of the session.
shared_role : (is_authenticated : Bool) → Option User → Option Text
shared_role true user = user_role user
shared_role false user = none

has_access : Option Text → List Text → Bool
has_access none allowed_roles = false
has_access (some role) allowed_roles = if is_empty role then false else includes allowed_roles role

-- The access that the context gives is that of the role utilities for the role of the user, where the
-- session is authenticated, and none otherwise.
has_access-shared_role :
    (is_authenticated : Bool) (user : Option User) (allowed_roles : List Text)
    → has_access (shared_role is_authenticated user) allowed_roles
      ≡ is_authenticated && is_role_allowed (user_role user) allowed_roles
unfolding shared_role has_access is_role_allowed
has_access-shared_role false user allowed_roles = refl
has_access-shared_role true user allowed_roles = elim (user_role user) [
  | none ↦ refl
  | some role ↦ refl
]
