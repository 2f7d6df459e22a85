-- ===== src/Login/Leaving.antt =====
-- frontend/src/components/auth/Logout.jsx: leaving, with a call of the server that may fail.
use hybrid_quantum_cryptogra.Prelude.{◌≡◌, refl, none, false}
use hybrid_quantum_cryptogra.Session.{
  Client, Reply, intercept, logout, reset_auth_state, authorization_header,
}

-- What the page does once it is shown; a call that fails is only logged.
unfoldable pub perform_logout : Reply (Unit {0}) → Client → Client
unfolding logout intercept
perform_logout reply c = logout (intercept reply c)

-- Whatever the server answers to the logout, the user is signed out on the device and later requests carry no
-- token.
pub perform_logout-authorization_header :
    (reply : Reply (Unit {0})) (c : Client)
    → ((perform_logout reply c).auth.is_authenticated ≡ false)
      × (authorization_header (perform_logout reply c) ≡ none)
unfolding perform_logout logout reset_auth_state authorization_header
perform_logout-authorization_header reply c = (refl, refl)
