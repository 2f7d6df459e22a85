-- ===== src/Routes/Screens.antt =====
-- The screens of the paths that ComprehensiveRoutes.jsx and ProtectedRoute.jsx redirect to.
use hybrid_quantum_cryptogra.Prelude.{
  ◌≡◌, refl, ◌⊎◌, inl, inr, Bool, true, false, Option, none, some, [], arith, Option-cases, ◌∙◌,
}
use hybrid_quantum_cryptogra.Js.{Text, lit, text_eq, to_lower_case}
use hybrid_quantum_cryptogra.Roles.{User, user_role}
use hybrid_quantum_cryptogra.Session.{Auth}
use hybrid_quantum_cryptogra.ProtectedRoute.{View, verifying, navigate, page, protected_route}
use hybrid_quantum_cryptogra.Routes.Items.{Guard, Route, unguarded, guest_only, layout, layout_for}
use hybrid_quantum_cryptogra.Routes.{
  routes, dashboard_of, get_dashboard_route, find_route, Router, Screen, redirects, guarded_screen,
  screen_of_view, screen,
}

unfoldable pub is_layout : Guard → Bool
is_layout unguarded = false
is_layout guest_only = false
is_layout layout = true
is_layout (layout_for roles) = true

-- The table lists the path, under the dashboard layout.
unfoldable pub under_layout : Text → Bool
unfolding is_layout
under_layout pathname = elim (find_route routes pathname) [
  | none ↦ false
  | some r ↦ is_layout r.guard
]

pub login_listed :
    find_route routes (lit "/login")
    ≡ some (record { path = lit "/login"; guard = guest_only; component = lit "Login" })
unfolding find_route routes text_eq lit
login_listed = refl

pub unauthorized_listed :
    find_route routes (lit "/unauthorized")
    ≡ some (record {
      path = lit "/unauthorized";
      guard = layout;
      component = lit "Unauthorized Access";
    })
unfolding find_route routes text_eq lit
unauthorized_listed = refl

dashboards_under_layout :
    (under_layout (lit "/customer/dashboard") ≡ true)
    × (under_layout (lit "/manager/dashboard") ≡ true)
    × (under_layout (lit "/auditor/dashboard") ≡ true)
    × (under_layout (lit "/admin/dashboard") ≡ true)
    × (under_layout (lit "/dashboard") ≡ true)
unfolding under_layout find_route routes text_eq lit is_layout
dashboards_under_layout = (refl, refl, refl, refl, refl)

pub unauthorized_under_layout : under_layout (lit "/unauthorized") ≡ true
unfolding under_layout find_route routes text_eq lit is_layout
unauthorized_under_layout = refl

pub dashboard_of-under_layout : (role : Text) → under_layout (dashboard_of role) ≡ true
unfolding dashboard_of
dashboard_of-under_layout role = ground (arith, dashboards_under_layout)

pub get_dashboard_route-cases :
    (user : Option User)
    → (get_dashboard_route user ≡ lit "/login") ⊎ (under_layout (get_dashboard_route user) ≡ true)
unfolding get_dashboard_route
get_dashboard_route-cases user = elim (Option-cases (user_role user)) [
  | inl e ↦ inl (rw (e, get_dashboard_route))
  | inr (role, e) ↦
      inr (rw (e, get_dashboard_route) (dashboard_of-under_layout (to_lower_case role)))
]

unfoldable pub target : View → Option Text
target verifying = none
target (navigate to reason from) = some to
target page = none

pub target_screen :
    (view : View) (child : Screen) {to : Text}
    → target view ≡ some to
    → screen_of_view view child ≡ redirects to
unfolding target screen_of_view
target_screen verifying child h = cc
target_screen (navigate to reason from) child h = cc
target_screen page child h = cc

module _ (router : Router) (auth : Auth) (settled : auth.is_verifying_session ≡ false) where
  pub screen_settled :
      (pathname : Text)
      → let r = router.pick routes pathname in
        screen router auth pathname ≡ guarded_screen auth pathname r.guard r.component
  unfolding screen
  screen_settled pathname = ground arith

  pub screen_listed :
      (pathname : Text) (r : Route)
      → find_route routes pathname ≡ some r
      → screen router auth pathname ≡ guarded_screen auth pathname r.guard r.component
  unfolding screen
  screen_listed pathname r e = rw (settled, router.pick_listed routes pathname r e)

  -- A path under the layout leads where the layout's `ProtectedRoute` sends.
  pub screen_refused :
      (pathname to : Text)
      → under_layout pathname ≡ true
      → target (protected_route auth [] pathname) ≡ some to
      → screen router auth pathname ≡ redirects to
  unfolding under_layout guarded_screen is_layout
  screen_refused pathname to under e = elim (Option-cases (find_route routes pathname)) [
    | inl missing ↦ absurd (ground arith)
    | inr (r, found) ↦
        screen_listed pathname r found
        ∙ refused r.guard r.component (rw (found, under_layout) at under)
  ]
    where
      refused :
          (g : Guard) (component : Text)
          → is_layout g ≡ true
          → guarded_screen auth pathname g component ≡ redirects to
      refused unguarded component h = cc
      refused guest_only component h = cc
      refused layout component h = target_screen (protected_route auth [] pathname) _ e
      refused (layout_for roles) component h = target_screen (protected_route auth [] pathname) _ e

  -- A path under the layout has a route with a layout around it.
  pub screen-under_layout :
      (pathname : Text)
      → under_layout pathname ≡ true
      → (r : Route) × (is_layout r.guard ≡ true)
        × (screen router auth pathname ≡ guarded_screen auth pathname r.guard r.component)
  unfolding under_layout
  screen-under_layout pathname under = elim (Option-cases (find_route routes pathname)) [
    | inl missing ↦ absurd (ground arith)
    | inr (r, found) ↦ (r, rw (found, under_layout) at under, screen_listed pathname r found)
  ]
