-- ===== src/Routes.antt =====
-- frontend/src/routes/ComprehensiveRoutes.jsx: which screen a path leads to, and the redirects on
-- the way. How a path finds its route is React Router's work: a parameter here.
pub mod Items
pub mod Table
pub mod Screens
pub mod Loops
pub mod Ending
pub mod Links
use hybrid_quantum_cryptogra.Prelude.{
  ℕ, zero, suc, ◌≡◌, Bool, true, false, Option, none, some, List, [], ◌∷◌, ◌++◌, if◌then◌else◌,
}
use hybrid_quantum_cryptogra.Js.{Text, lit, text_eq, to_lower_case}
use hybrid_quantum_cryptogra.Roles.{User, user_role, customer, manager, auditor_clerk, system_admin}
use hybrid_quantum_cryptogra.Session.{Auth}
use hybrid_quantum_cryptogra.ProtectedRoute.{View, verifying, navigate, page, protected_route}
use Items.{Guard, Route, unguarded, guest_only, layout, layout_for}
use Table.{
  public_routes, dashboard_route, customer_routes, manager_routes, auditor_routes, admin_routes,
  remaining_routes,
}

unfoldable pub routes : List Route
unfolding public_routes dashboard_route customer_routes manager_routes auditor_routes admin_routes
    remaining_routes
routes =
    public_routes ++ dashboard_route ++ customer_routes ++ manager_routes ++ auditor_routes
    ++ admin_routes ++ remaining_routes

pub dashboard_of : Text → Text
dashboard_of role =
    if text_eq role customer
    then lit "/customer/dashboard"
    else if text_eq role manager
    then lit "/manager/dashboard"
    else if text_eq role auditor_clerk
    then lit "/auditor/dashboard"
    else if text_eq role system_admin
    then lit "/admin/dashboard"
    else lit "/dashboard"

unfoldable pub get_dashboard_route : Option User → Text
unfolding dashboard_of
get_dashboard_route user = elim (user_role user) [
  | none ↦ lit "/login"
  | some role ↦ dashboard_of (to_lower_case role)
]

-- The first route with exactly this path.
unfoldable pub find_route : List Route → Text → Option Route
find_route [] pathname = none
find_route (r ∷ rs) pathname = if text_eq r.path pathname then some r else find_route rs pathname

-- React Router: it picks a route for every path (the table has a catch-all), and for a path that the
-- table lists, the first route that lists it.
pub record Router : Type 0 where
  pub pick : List Route → Text → Route
  pub pick_listed :
      (table : List Route) (pathname : Text) (r : Route)
      → find_route table pathname ≡ some r
      → pick table pathname ≡ r

-- What is on the screen for a path: nothing yet, a component, the notice that the session is being
-- verified, or a redirect that is about to be followed.
pub data Screen : Type 0 where
  blank : Screen
  notice : Screen
  shows : (component : Text) → Screen
  redirects : (to : Text) → Screen

unfoldable pub screen_of_view : View → Screen → Screen
screen_of_view verifying child = notice
screen_of_view (navigate to reason from) child = redirects to
screen_of_view page child = child

unfoldable pub guarded_screen : Auth → Text → Guard → Text → Screen
unfolding screen_of_view
guarded_screen auth pathname unguarded component = shows component
guarded_screen auth pathname guest_only component =
    if auth.is_authenticated then redirects (get_dashboard_route auth.user) else shows component
guarded_screen auth pathname layout component =
    screen_of_view (protected_route auth [] pathname) (shows component)
guarded_screen auth pathname (layout_for roles) component =
    screen_of_view (protected_route auth [] pathname)
      (screen_of_view (protected_route auth roles pathname) (shows component))

module _ (router : Router) where
  unfoldable pub screen : Auth → Text → Screen
  unfolding guarded_screen
  screen auth pathname =
      let r = router.pick routes pathname in
      if auth.is_verifying_session then blank else guarded_screen auth pathname r.guard r.component

  -- The screen after at most `fuel` redirects; `none` if there are more. Redirects change the path,
  -- and nothing of the state.
  unfoldable pub settle : ℕ → Auth → Text → Option Screen
  settle zero auth pathname = none
  settle (suc fuel) auth pathname = elim (screen auth pathname) [
    | blank ↦ some blank
    | notice ↦ some notice
    | shows component ↦ some (shows component)
    | redirects to ↦ settle fuel auth to
  ]
