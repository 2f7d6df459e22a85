-- ===== src/ProtectedRoute/Admission.antt =====
-- Who is admitted to a protected page, and what a synchronization with the server changes in that.
use hybrid_quantum_cryptogra.Prelude.{
  ◌≡◌, ◌≢◌, ◌↔◌, true, false, Option, none, some, List, [], ◌∷◌, arith, Option-cases, inl, inr,
}
use hybrid_quantum_cryptogra.Js.{Text, includes}
use hybrid_quantum_cryptogra.Roles.{User, truthy, user_role}
use hybrid_quantum_cryptogra.Session.{
  ServerSession, Auth, Client, Reply, answered, refused, unreachable, is_ready,
  sync_session_from_server,
}
use hybrid_quantum_cryptogra.ProtectedRoute.{
  page, session_requires_reauth, role_forbidden, protected_route,
}

-- A user has one of the roles; every role will do if none is listed.
abbrev pub MayEnter : List Text → Option User → Type 0
MayEnter [] user = Unit
MayEnter (r ∷ rs) user =
    (role : Text) × (user_role user ≡ some role) × (includes (r ∷ rs) role ≡ true)

MayEnter-iff :
    (roles : List Text) (user : Option User)
    → (role_forbidden roles (user_role user) ≡ false) ↔ MayEnter roles user
unfolding role_forbidden
MayEnter-iff [] user = ground arith
MayEnter-iff (r ∷ rs) user = elim (Option-cases (user_role user)) [
  | inl e ↦ (λ h. absurd (ground arith), λ (role, e', _). cc)
  | inr (role, e) ↦
      (λ h. (role, e, ground arith), λ (role', e', held). rw (e', role_forbidden, held))
]

-- The page is shown exactly if no verification is under way, the user is signed in, the session asks
-- for no new authentication, the certificate is verified, and the user's role is one of those allowed.
pub protected_route-eq-page_iff :
    (auth : Auth) (roles : List Text) (pathname : Text)
    → (protected_route auth roles pathname ≡ page) ↔ (
        (auth.is_verifying_session ≡ false)
        × (auth.is_authenticated ≡ true)
        × (session_requires_reauth auth.session_info ≡ false)
        × (auth.certificate_ready ≡ true)
        × MayEnter roles auth.user)
unfolding protected_route
protected_route-eq-page_iff auth roles pathname = ground (arith, MayEnter-iff roles auth.user)

-- The states that a synchronization which was not silent ends in.
abbrev signed_out : Auth
signed_out = record {
  is_authenticated = false;
  user = none;
  session_info = none;
  certificate_ready = false;
  is_verifying_session = false;
}

abbrev signed_in : ServerSession → Auth
signed_in response = record {
  is_authenticated = true;
  user = response.user;
  session_info = some response;
  certificate_ready = is_ready response;
  is_verifying_session = false;
}

-- What the server says of a session that may see the pages of some roles.
abbrev pub Vouches : Reply ServerSession → List Text → Type 0
Vouches (answered response) roles =
    (response.user ≢ none) × (is_ready response ≡ true) × MayEnter roles response.user
Vouches (refused status) roles = ⊥
Vouches unreachable roles = ⊥

signed_in-eq-page_iff :
    (response : ServerSession) (roles : List Text) (pathname : Text)
    → (protected_route (signed_in response) roles pathname ≡ page)
      ↔ ((is_ready response ≡ true) × MayEnter roles response.user)
unfolding protected_route is_ready
signed_in-eq-page_iff response roles pathname = ground (arith, MayEnter-iff roles response.user)

signed_out-ne-page :
    (roles : List Text) (pathname : Text) → protected_route signed_out roles pathname ≢ page
unfolding protected_route
signed_out-ne-page roles pathname h = cc

-- The state after a synchronization, from the token and the answer alone.
verdict : Option Text → Reply ServerSession → Auth
verdict none reply = signed_out
verdict (some token) (answered response) = elim (response.user) [
  | none ↦ signed_out
  | some u ↦ signed_in response
]
verdict (some token) (refused status) = signed_out
verdict (some token) unreachable = signed_out

sync-verdict :
    (reply : Reply ServerSession) (c : Client)
    → (sync_session_from_server false reply c).0.auth ≡ verdict (truthy c.pq_token) reply
unfolding sync_session_from_server verdict
sync-verdict (answered response) c = ground arith
sync-verdict (refused status) c = ground arith
sync-verdict unreachable c = ground arith

verdict-eq-page_iff :
    (token : Option Text) (reply : Reply ServerSession) (roles : List Text) (pathname : Text)
    → (protected_route (verdict token reply) roles pathname ≡ page)
      ↔ ((token ≢ none) × Vouches reply roles)
unfolding verdict
verdict-eq-page_iff none reply roles pathname = ground (arith, signed_out-ne-page roles pathname)
verdict-eq-page_iff (some token) (answered response) roles pathname =
    ground (arith, signed_out-ne-page roles pathname, signed_in-eq-page_iff response roles pathname)
verdict-eq-page_iff (some token) (refused status) roles pathname =
    ground (arith, signed_out-ne-page roles pathname)
verdict-eq-page_iff (some token) unreachable roles pathname =
    ground (arith, signed_out-ne-page roles pathname)

-- After a synchronization that was not silent, a page is shown exactly if the client held a token and
-- the server answered with a session of a user with an allowed role, with a certificate, and without
-- the demand to authenticate again. Nothing that the client believed before counts.
pub sync-eq-page_iff :
    (reply : Reply ServerSession) (c : Client) (roles : List Text) (pathname : Text)
    → (protected_route (sync_session_from_server false reply c).0.auth roles pathname ≡ page)
      ↔ ((truthy c.pq_token ≢ none) × Vouches reply roles)
sync-eq-page_iff reply c roles pathname =
    rw sync-verdict (verdict-eq-page_iff (truthy c.pq_token) reply roles pathname)
