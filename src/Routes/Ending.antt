-- ===== src/Routes/Ending.antt =====
-- Redirects of ComprehensiveRoutes.jsx and ProtectedRoute.jsx that end.
use hybrid_quantum_cryptogra.Prelude.{
  ℕ, suc, ◌≡◌, refl, ◌⊎◌, inl, inr, true, false, some, List, [], arith,
}
use hybrid_quantum_cryptogra.Js.{Text, lit, to_lower_case}
use hybrid_quantum_cryptogra.Roles.{user_role}
use hybrid_quantum_cryptogra.Session.{Auth}
use hybrid_quantum_cryptogra.ProtectedRoute.{page, session_requires_reauth, protected_route}
use hybrid_quantum_cryptogra.Routes.Items.{Guard, unguarded, guest_only, layout, layout_for}
use hybrid_quantum_cryptogra.Routes.{
  dashboard_of, get_dashboard_route, Router, Screen, blank, notice, shows, redirects,
  guarded_screen, screen_of_view, screen, settle,
}
use hybrid_quantum_cryptogra.Routes.Screens.{
  is_layout, under_layout, login_listed, unauthorized_listed, dashboard_of-under_layout, target,
  screen_listed, screen_settled, target_screen, screen-under_layout,
}

-- A session in good standing, or none at all.
pub data IsOrderly (auth : Auth) : Type 0 where
  guest : auth.is_authenticated ≡ false → IsOrderly auth
  member :
      (role : Text)
      → auth.is_authenticated ≡ true
      → session_requires_reauth auth.session_info ≡ false
      → auth.certificate_ready ≡ true
      → user_role auth.user ≡ some role
      → IsOrderly auth

module _ (router : Router) (auth : Auth) where
  -- The redirects from a screen end on another screen within the fuel.
  abbrev Ends : ℕ → Screen → Type 0
  Ends fuel blank = Unit
  Ends fuel notice = Unit
  Ends fuel (shows component) = Unit
  Ends fuel (redirects to) = (s : Screen) × (settle router fuel auth to ≡ some s)

  settle_of_Ends :
      (fuel : ℕ) (pathname : Text)
      → Ends fuel (screen router auth pathname)
      → (s : Screen) × (settle router (suc fuel) auth pathname ≡ some s)
  unfolding settle
  settle_of_Ends fuel pathname h = go (screen router auth pathname) refl h
    where
      go :
          (now : Screen)
          → screen router auth pathname ≡ now
          → Ends fuel now
          → (s : Screen) × (settle router (suc fuel) auth pathname ≡ some s)
      go blank e h = (blank, rw (e, settle))
      go notice e h = (notice, rw (e, settle))
      go (shows component) e h = (shows component, rw (e, settle))
      go (redirects to) e (s, h) = (s, rw (e, settle) h)

module _ (router : Router) (auth : Auth) (settled : auth.is_verifying_session ≡ false) where
  -- A guest sees the login page, and is sent there from every page under the layout.
  module _ (signed_out : auth.is_authenticated ≡ false) where
    login_shown : (s : Screen) × (settle router 2 auth (lit "/login") ≡ some s)
    unfolding guarded_screen
    login_shown =
        settle_of_Ends router auth 1 (lit "/login")
          (rw (screen_listed router auth settled (lit "/login") _ login_listed, signed_out) tt)

    guest_sent : (pathname : Text) → target (protected_route auth [] pathname) ≡ some (lit "/login")
    unfolding protected_route target
    guest_sent pathname = ground arith

    guest_Ends :
        (pathname : Text) (g : Guard) (component : Text)
        → Ends router auth 2 (guarded_screen auth pathname g component)
    unfolding guarded_screen
    guest_Ends pathname unguarded component = tt
    guest_Ends pathname guest_only component = rw signed_out tt
    guest_Ends pathname layout component =
        rw (target_screen (protected_route auth [] pathname) _ (guest_sent pathname)) login_shown
    guest_Ends pathname (layout_for roles) component =
        rw (target_screen (protected_route auth [] pathname) _ (guest_sent pathname)) login_shown

  -- A user in good standing sees a page, or the one that says that the role is not allowed.
  module _ (authed : auth.is_authenticated ≡ true)
      (fresh : session_requires_reauth auth.session_info ≡ false)
      (ready : auth.certificate_ready ≡ true) where
    layout_page : (pathname : Text) → protected_route auth [] pathname ≡ page
    unfolding protected_route
    layout_page pathname = ground arith

    role_cases :
        (roles : List Text) (pathname : Text)
        → (protected_route auth roles pathname ≡ page)
          ⊎ (target (protected_route auth roles pathname) ≡ some (lit "/unauthorized"))
    unfolding protected_route target
    role_cases roles pathname = ground arith

    unauthorized_shown :
        (fuel : ℕ) → (s : Screen) × (settle router (suc fuel) auth (lit "/unauthorized") ≡ some s)
    unfolding guarded_screen
    unauthorized_shown fuel = settle_of_Ends router auth fuel (lit "/unauthorized") (
        rw
          (
            screen_listed router auth settled (lit "/unauthorized") _ unauthorized_listed,
            layout_page (lit "/unauthorized"),
            screen_of_view,
          )
          tt)

    -- `fuel` redirects more than the one to the page that refuses the role.
    layout_Ends :
        (fuel : ℕ) (pathname : Text) (g : Guard) (component : Text)
        → is_layout g ≡ true
        → Ends router auth (suc fuel) (guarded_screen auth pathname g component)
    unfolding guarded_screen is_layout
    layout_Ends fuel pathname unguarded component h = cc
    layout_Ends fuel pathname guest_only component h = cc
    layout_Ends fuel pathname layout component h = rw (layout_page pathname, screen_of_view) tt
    layout_Ends fuel pathname (layout_for roles) component h = elim (role_cases roles pathname) [
      | inl allowed ↦ rw (layout_page pathname, screen_of_view, allowed, screen_of_view) tt
      | inr refused ↦
          rw
            (
              layout_page pathname,
              screen_of_view,
              target_screen (protected_route auth roles pathname) _ refused,
            )
            (unauthorized_shown fuel)
    ]

    under_layout_shown :
        (pathname : Text)
        → under_layout pathname ≡ true
        → (s : Screen) × (settle router 2 auth pathname ≡ some s)
    under_layout_shown pathname under =
        let (r, laid, e) = screen-under_layout router auth settled pathname under in
        settle_of_Ends router auth 1 pathname
          (rw e (layout_Ends 0 pathname r.guard r.component laid))

    guest_only_screen :
        (role pathname component : Text)
        → user_role auth.user ≡ some role
        → guarded_screen auth pathname guest_only component
          ≡ redirects (dashboard_of (to_lower_case role))
    unfolding guarded_screen get_dashboard_route
    guest_only_screen role pathname component named = ground arith

    member_Ends :
        (role pathname : Text) (g : Guard) (component : Text)
        → user_role auth.user ≡ some role
        → Ends router auth 2 (guarded_screen auth pathname g component)
    unfolding is_layout guarded_screen
    member_Ends role pathname unguarded component named = tt
    member_Ends role pathname guest_only component named =
        rw (guest_only_screen role pathname component named)
          (under_layout_shown _ (dashboard_of-under_layout (to_lower_case role)))
    member_Ends role pathname layout component named = layout_Ends 1 pathname layout component refl
    member_Ends role pathname (layout_for roles) component named =
        layout_Ends 1 pathname (layout_for roles) component refl

guarded_Ends :
    (router : Router) (auth : Auth)
    → auth.is_verifying_session ≡ false
    → IsOrderly auth
    → (pathname : Text) (g : Guard) (component : Text)
    → Ends router auth 2 (guarded_screen auth pathname g component)
guarded_Ends router auth settled (guest e) pathname g component =
    guest_Ends router auth settled e pathname g component
guarded_Ends router auth settled (member role authed fresh ready named) pathname g component =
    member_Ends router auth settled authed fresh ready role pathname g component named

-- With no verification under way, any path leads to a screen after two redirects at most, for a guest and for a user with a role whose
-- session is in good standing.
pub settle_within :
    (router : Router) (auth : Auth) (pathname : Text)
    → auth.is_verifying_session ≡ false
    → IsOrderly auth
    → (s : Screen) × (settle router 3 auth pathname ≡ some s)
settle_within router auth pathname settled orderly = settle_of_Ends router auth 2 pathname (
    rw (screen_settled router auth settled pathname)
      (guarded_Ends router auth settled orderly pathname _ _))
