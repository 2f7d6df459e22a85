-- ===== src/Routes/Links.antt =====
-- The links that the sidebar offers lead to pages that their users may see.
use mathlib.Core.List.{Mem}
use mathlib.Core.Bool.{false≢true}
use hybrid_quantum_cryptogra.Prelude.{
  ◌≡◌, refl, Bool, true, false, Option, none, some, List, [], ◌∷◌, ◌++◌, every, every_sound,
  Option-cases, inl, inr, ◌∙◌,
}
use hybrid_quantum_cryptogra.Js.{
  Text, lit, text_eq, includes, to_lower_case, Property, own, inherited, absent, get_property,
  own_entry, is_empty, ok, ok-injective,
}
use hybrid_quantum_cryptogra.Roles.{User, truthy, user_role}
use hybrid_quantum_cryptogra.Session.{Auth}
use hybrid_quantum_cryptogra.ProtectedRoute.{page, protected_route}
use hybrid_quantum_cryptogra.ProtectedRoute.Admission.{MayEnter, protected_route-eq-page_iff}
use hybrid_quantum_cryptogra.Navigation.Items.{NavLink, NavItem, links_of}
use hybrid_quantum_cryptogra.Navigation.Config.{common_navigation}
use hybrid_quantum_cryptogra.Navigation.{navigation_config, with_common, get_navigation_for_role}
use hybrid_quantum_cryptogra.Routes.Items.{Guard, Route, unguarded, guest_only, layout, layout_for}
use hybrid_quantum_cryptogra.Routes.{
  routes, find_route, Router, shows, guarded_screen, screen_of_view, screen,
}
use hybrid_quantum_cryptogra.Routes.Screens.{screen_listed}

-- A route that lets the role in, if the layout does.
admits : Text → Guard → Bool
admits role unguarded = true
admits role guest_only = false
admits role layout = true
admits role (layout_for roles) = includes roles role

lands : Text → NavLink → Bool
lands role l = elim (find_route routes l.path) [ none ↦ false | some r ↦ admits role r.guard ]

abbrev all_land : Text → List NavItem → Bool
all_land role items = every (lands role) (links_of items)

config_lands :
    every (λ entry. all_land entry.0 (entry.1 ++ common_navigation)) navigation_config ≡ true
unfolding every links_of navigation_config lands admits find_route routes includes text_eq lit
config_lands = refl

common_lands : (role : Text) → all_land role common_navigation ≡ true
unfolding every links_of navigation_config lands admits find_route routes includes text_eq lit
common_lands role = refl

found_lands :
    (role : Text) (found : Property (List NavItem)) {items : List NavItem}
    → get_property role navigation_config ≡ found
    → with_common found ≡ ok items
    → all_land role items ≡ true
unfolding with_common
found_lands role (own section) e h =
    let same : section ++ common_navigation ≡ _ = ok-injective h in
    rw (← same) (
      own_entry (λ (key : Text) (s : List NavItem). all_land key (s ++ common_navigation)) role
        navigation_config config_lands e)
found_lands role inherited e h = cc
found_lands role absent e h = rw (← ok-injective h) (common_lands role)

navigation_lands :
    (role : Text) (items : List NavItem)
    → to_lower_case role ≡ role
    → get_navigation_for_role (some role) ≡ ok items
    → all_land role items ≡ true
unfolding get_navigation_for_role truthy is_empty links_of every
navigation_lands [] items lower e = rw (← ok-injective e)
navigation_lands (c ∷ s) items lower e = found_lands (c ∷ s) _ refl (rw lower at e)

MayEnter-of_includes :
    (roles : List Text) (user : Option User) (role : Text)
    → user_role user ≡ some role
    → includes roles role ≡ true
    → MayEnter roles user
MayEnter-of_includes [] user role named h = tt
MayEnter-of_includes (r ∷ rs) user role named h = (role, named, h)

protected_route-more :
    (auth : Auth) (roles : List Text) (pathname role : Text)
    → protected_route auth [] pathname ≡ page
    → user_role auth.user ≡ some role
    → includes roles role ≡ true
    → protected_route auth roles pathname ≡ page
protected_route-more auth roles pathname role seen named h =
    let (idle, authed, fresh, ready, _) = (protected_route-eq-page_iff auth [] pathname).0 seen in
    (protected_route-eq-page_iff auth roles pathname).1
      (idle, authed, fresh, ready, MayEnter-of_includes roles auth.user role named h)

admitted_screen :
    (auth : Auth) (pathname role : Text) (g : Guard) (component : Text)
    → protected_route auth [] pathname ≡ page
    → user_role auth.user ≡ some role
    → admits role g ≡ true
    → guarded_screen auth pathname g component ≡ shows component
unfolding guarded_screen admits screen_of_view
admitted_screen auth pathname role unguarded component seen named h = refl
admitted_screen auth pathname role guest_only component seen named h = cc
admitted_screen auth pathname role layout component seen named h = rw (seen, screen_of_view)
admitted_screen auth pathname role (layout_for roles) component seen named h = rw (
  seen,
  screen_of_view,
  protected_route-more auth roles pathname role seen named h,
  screen_of_view,
)

-- Whatever link the sidebar offers to a signed-in user in good standing, whose role is written in lower
-- case: the table of routes lists its path, and the first route that does shows its component to the user.
pub navigation-shows :
    (router : Router) (auth : Auth) (role : Text) (items : List NavItem) (l : NavLink)
    → protected_route auth [] l.path ≡ page
    → user_role auth.user ≡ some role
    → to_lower_case role ≡ role
    → get_navigation_for_role (some role) ≡ ok items
    → Mem l (links_of items)
    → (r : Route) × (find_route routes l.path ≡ some r)
      × (screen router auth l.path ≡ shows r.component)
unfolding lands
navigation-shows router auth role items l seen named lower offered listed =
    let landed : lands role l ≡ true =
      every_sound (lands role) (links_of items) (navigation_lands role items lower offered)
        listed in
    elim (Option-cases (find_route routes l.path)) [
      | inl missing ↦ absurd (false≢true (rw (missing, lands) at landed))
      | inr (r, found) ↦ (
        r,
        found,
        screen_listed router auth idle l.path r found
            ∙ admitted_screen auth l.path role r.guard r.component seen named
                (rw (found, lands) at landed),
      )
    ]
  where
    idle : auth.is_verifying_session ≡ false
    idle = ((protected_route-eq-page_iff auth [] l.path).0 seen).0
