-- ===== src/PermissionGate/Soundness.antt =====
-- A gate opens exactly for the users who hold what it asks for.
use mathlib.Core.List.{Memᴰ}
use hybrid_quantum_cryptogra.Prelude.{
  ℕ, ◌≤◌, ◌≡◌, refl, ◌≢◌, ◌↔◌, Bool, true, false, Option, some, List, All, arith, Option-cases, inl,
  inr,
}
use hybrid_quantum_cryptogra.Js.{
  Text, lit, text_eq, Result, ok, every_call_iff, some_call_sound, ◌>>=◌, text_eq_refl,
}
use hybrid_quantum_cryptogra.Roles.{User, user_role}
use hybrid_quantum_cryptogra.Rbac.{
  Level, number, object, has_permission, has_any_permission, has_all_permissions, get_role_level,
}
use hybrid_quantum_cryptogra.PermissionGate.{
  children, fallback, check_mode, permission_gate, render, hierarchy_gate, reaches,
}

fallback-ne-children : ok fallback ≢ ok children
fallback-ne-children h = cc

rendered :
    {check : Result Bool}
    → (check >>= λ has_access. ok (render has_access)) ≡ ok children
    → check ≡ ok true
rendered {check} h = ground arith

-- With any mode but "any", the children are rendered exactly for a user with a role that holds every
-- listed permission.
permission_gate-All_iff :
    (user : Option User) (permissions : List Text) (mode : Text)
    → text_eq mode (lit "any") ≡ false
    → (permission_gate user permissions mode ≡ ok children) ↔ (
        (role : Text) × (user_role user ≡ some role)
        × All (λ p. has_permission (some role) p ≡ ok true) permissions)
unfolding permission_gate check_mode has_all_permissions
permission_gate-All_iff user permissions mode m = elim (Option-cases (user_role user)) [
  | inl e ↦ (λ h. absurd (fallback-ne-children (rw (e, permission_gate) at h)), λ (role, e', _). cc)
  | inr (role, e) ↦ (
    λ h. (role, e, (every_call_iff _ permissions).0 (rendered (rw (e, permission_gate, m) at h))),
    λ (role', e', held).
        rw (
          e',
          permission_gate,
          m,
          (every_call_iff (has_permission (some role')) permissions).1 held,
        ),
  )
]

-- With mode "any", the children are rendered only for a user whose role holds a listed permission.
pub permission_gate-any :
    (user : Option User) (permissions : List Text)
    → permission_gate user permissions (lit "any") ≡ ok children
    → (role : Text) × (user_role user ≡ some role)
      × ((p : Text) × Memᴰ p permissions × (has_permission (some role) p ≡ ok true))
unfolding permission_gate check_mode has_any_permission
permission_gate-any user permissions h = elim (Option-cases (user_role user)) [
  | inl e ↦ absurd (fallback-ne-children (rw (e, permission_gate) at h))
  | inr (role, e) ↦ (
    role,
    e,
    some_call_sound (has_permission (some role)) permissions
        (rendered (rw (e, permission_gate, text_eq_refl (lit "any")) at h)),
  )
]

-- `HierarchyGate` renders its children exactly for a user whose role has a level in the hierarchy, and
-- one that is at least the minimum.
pub hierarchy_gate_iff :
    (user : Option User) (minimum : ℕ)
    → (hierarchy_gate user minimum ≡ children) ↔ (
        (role : Text) × (level : ℕ) × (user_role user ≡ some role)
        × (get_role_level (some role) ≡ number level)
        × (minimum ≤ level))
unfolding hierarchy_gate
hierarchy_gate_iff user minimum = elim (Option-cases (user_role user)) [
  | inl e ↦ (λ h. absurd (closed (rw (e, hierarchy_gate) at h)), λ (role, level, e', _, _). cc)
  | inr (role, e) ↦ (
    λ h. reach role e (get_role_level (some role)) refl (rw (e, hierarchy_gate) at h),
    λ (role', level, e', l, le). rw (e', hierarchy_gate, l) (ground arith),
  )
]
  where
    closed : fallback ≢ children
    closed h = cc

    reach :
        (role : Text)
        → user_role user ≡ some role
        → (level : Level) → get_role_level (some role) ≡ level
        → render (reaches level minimum) ≡ children
        → (role : Text) × (level : ℕ) × (user_role user ≡ some role)
          × (get_role_level (some role) ≡ number level)
          × (minimum ≤ level)
    reach role e (number level) l h = (role, level, e, l, ground arith)
    reach role e (object _) l h = cc
