-- ===== src/ProtectedRoute.antt =====
-- frontend/src/components/common/ProtectedRoute.jsx: who sees a page, and where the others are sent.
pub mod Admission
use hybrid_quantum_cryptogra.Prelude.{
  Bool, true, false, not, ◌&&◌, ◌||◌, Option, none, some, List, [], ◌∷◌, if◌then◌else◌,
}
use hybrid_quantum_cryptogra.Js.{Text, lit, includes, is_empty}
use hybrid_quantum_cryptogra.Roles.{User, truthy, user_role}
use hybrid_quantum_cryptogra.Session.{ServerSession, Flags, Auth}

-- What the component renders: the notice that a session is being verified, a redirect with the
-- reason and the page of origin that it passes on, or the page.
pub data View : Type 0 where
  verifying : View
  navigate : (to : Text) (reason : Option Text) (from : Option Text) → View
  page : View

unfoldable pub session_requires_reauth : Option ServerSession → Bool
session_requires_reauth none = false
session_requires_reauth (some info) = elim (info.session) [
  | none ↦ false
  | some flags ↦ flags.reauth_required
]

-- `location.pathname || "/"`
origin : Text → Text
origin pathname = if is_empty pathname then lit "/" else pathname

-- `allowedRoles.length > 0 && (!userRole || !allowedRoles.includes(userRole))`
unfoldable pub role_forbidden : List Text → Option Text → Bool
role_forbidden [] role = false
role_forbidden (r ∷ rs) none = true
role_forbidden (r ∷ rs) (some role) = not (includes (r ∷ rs) role)

unfoldable pub protected_route : Auth → List Text → Text → View
unfolding session_requires_reauth origin role_forbidden user_role truthy
protected_route auth allowed_roles pathname =
    if auth.is_verifying_session
    then verifying
    else if not auth.is_authenticated
    then navigate (lit "/login") none (some (origin pathname))
    else if session_requires_reauth auth.session_info
    then navigate (lit "/login") (some (lit "reauth-required")) (some (origin pathname))
    else if not auth.certificate_ready
    then navigate (lit "/unauthorized") (some (lit "certificate-unverified")) none
    else if role_forbidden allowed_roles (user_role auth.user)
    then navigate (lit "/unauthorized") (some (lit "role-forbidden")) none
    else page
