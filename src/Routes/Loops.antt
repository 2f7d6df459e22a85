-- ===== src/Routes/Loops.antt =====
-- Redirects of ComprehensiveRoutes.jsx and ProtectedRoute.jsx that never end.
use hybrid_quantum_cryptogra.Prelude.{
  ℕ, zero, suc, ◌≡◌, refl, inl, inr, true, false, none, arith, ◌∙◌,
}
use hybrid_quantum_cryptogra.Js.{Text, lit}
use hybrid_quantum_cryptogra.Session.{Auth}
use hybrid_quantum_cryptogra.ProtectedRoute.{session_requires_reauth, protected_route}
use hybrid_quantum_cryptogra.Routes.{
  get_dashboard_route, Router, redirects, guarded_screen, screen, settle,
}
use hybrid_quantum_cryptogra.Routes.Screens.{
  under_layout, login_listed, unauthorized_under_layout, get_dashboard_route-cases, target,
  screen_listed, screen_refused,
}

module _ (router : Router) (auth : Auth) (settled : auth.is_verifying_session ≡ false) where
  login_screen :
      auth.is_authenticated ≡ true
      → screen router auth (lit "/login") ≡ redirects (get_dashboard_route auth.user)
  unfolding guarded_screen
  login_screen authed = screen_listed router auth settled (lit "/login") _ login_listed ∙ rw authed

  -- Signed in, and the session asks for a new authentication: the login page sends to the dashboard,
  -- and the dashboard to the login page.
  module _ (authed : auth.is_authenticated ≡ true)
      (reauth : session_requires_reauth auth.session_info ≡ true) where
    sent_to_login :
        (pathname : Text)
        → under_layout pathname ≡ true
        → screen router auth pathname ≡ redirects (lit "/login")
    unfolding protected_route target
    sent_to_login pathname under =
        screen_refused router auth settled pathname (lit "/login") under (ground arith)

    loops :
        (fuel : ℕ)
        → (settle router fuel auth (lit "/login") ≡ none)
          × (settle router fuel auth (get_dashboard_route auth.user) ≡ none)
    unfolding settle
    loops zero = (refl, refl)
    loops (suc fuel) = (
      rw (login_screen authed, settle) (loops fuel).1,
      elim (get_dashboard_route-cases auth.user) [
        | inl login ↦ rw (login, login_screen authed, settle) (loops fuel).1
        | inr under ↦ rw (sent_to_login _ under, settle) (loops fuel).0
      ],
    )

-- A signed-in user whose session must be authenticated again cannot reach the login page: the
-- redirects never end, whatever number of them is followed.
pub settle-reauth_required :
    (router : Router) (auth : Auth) (fuel : ℕ)
    → auth.is_verifying_session ≡ false
    → auth.is_authenticated ≡ true
    → session_requires_reauth auth.session_info ≡ true
    → settle router fuel auth (lit "/login") ≡ none
settle-reauth_required router auth fuel settled authed reauth =
    (loops router auth settled authed reauth fuel).0

-- A signed-in user whose certificate is not verified cannot reach the page that is to say so: it stands
-- under the layout that sends there.
pub settle-certificate_unverified :
    (router : Router) (auth : Auth) (fuel : ℕ)
    → auth.is_verifying_session ≡ false
    → auth.is_authenticated ≡ true
    → session_requires_reauth auth.session_info ≡ false
    → auth.certificate_ready ≡ false
    → settle router fuel auth (lit "/unauthorized") ≡ none
unfolding settle protected_route target
settle-certificate_unverified router auth zero settled authed fresh unready = refl
settle-certificate_unverified router auth (suc fuel) settled authed fresh unready =
    rw (sent, settle) (settle-certificate_unverified router auth fuel settled authed fresh unready)
  where
    sent : screen router auth (lit "/unauthorized") ≡ redirects (lit "/unauthorized")
    sent =
        screen_refused router auth settled (lit "/unauthorized") (lit "/unauthorized")
          unauthorized_under_layout (ground arith)
