-- ===== src/Tests/Browsing.antt =====
-- The session, the protected pages, the links and the redirects at concrete inputs.
use mathlib.Core.List.{Mem, mem-cons_self, mem-cons_of_mem}
use mathlib.Core.Option
use hybrid_quantum_cryptogra.Prelude.{
  ◌≡◌, refl, ◌≢◌, ◌↔◌, ap, Bool, true, false, Option, none, some, List, [], ◌∷◌, ◌++◌,
}
use hybrid_quantum_cryptogra.Js.{Text, lit, text_eq, is_empty, to_lower_case, get_property, ok}
use hybrid_quantum_cryptogra.Roles.{User, truthy, user_role, customer}
use hybrid_quantum_cryptogra.Rbac.{has_permission}
use hybrid_quantum_cryptogra.Session.{
  ServerSession, Auth, Client, Login, answered, refused, unreachable, load_page, sync_finish,
  sync_session_from_server, complete_login, logout, authorization_header,
}
use hybrid_quantum_cryptogra.Session.Consistency.{IsConsistent}
use hybrid_quantum_cryptogra.Session.Steps.{
  Page, here, next, load, sign_out, Reach-IsConsistent, logout-authorization_header,
  logout-sync_finish,
}
use hybrid_quantum_cryptogra.Session.Completion.{complete_login-rejected}
use hybrid_quantum_cryptogra.ProtectedRoute.{page, session_requires_reauth, protected_route}
use hybrid_quantum_cryptogra.ProtectedRoute.Admission.{
  MayEnter, Vouches, protected_route-eq-page_iff, sync-eq-page_iff,
}
use hybrid_quantum_cryptogra.Navigation.Items.{NavLink, NavItem, links_of}
use hybrid_quantum_cryptogra.Navigation.{navigation_config, get_navigation_for_role}
use hybrid_quantum_cryptogra.Navigation.Config.{customer_navigation, common_navigation}
use hybrid_quantum_cryptogra.Navigation.Permissions.{navigation-has_permission}
use hybrid_quantum_cryptogra.Routes.Items.{Route, unguarded}
use hybrid_quantum_cryptogra.Routes.{routes, find_route, Router, Screen, shows, screen, settle}
use hybrid_quantum_cryptogra.Routes.Loops.{settle-reauth_required, settle-certificate_unverified}
use hybrid_quantum_cryptogra.Routes.Ending.{member, settle_within}
use hybrid_quantum_cryptogra.Routes.Links.{navigation-shows}

abbrev ann : User
ann = record { username = lit "ann"; role = some (lit "customer") }

abbrev vouched : ServerSession
vouched = record {
  user = some ann;
  certificate = some (record { certificate_id = some (lit "C-1") });
  session = some (record { reauth_required = false });
}

abbrev stale : ServerSession
stale = record vouched { session = some (record { reauth_required = true }) }

abbrev fresh_client : Client
fresh_client = record {
  auth = record {
    is_authenticated = false;
    user = none;
    session_info = none;
    certificate_ready = false;
    is_verifying_session = true;
  };
  pq_token = some (lit "t1");
  pq_user = none;
  location = none;
}

abbrev signed_in_with : ServerSession → Bool → Auth
signed_in_with response ready = record {
  is_authenticated = true;
  user = some ann;
  session_info = some response;
  certificate_ready = ready;
  is_verifying_session = false;
}

session_test :
    (sync_session_from_server false (answered vouched) fresh_client).0.auth
    ≡ signed_in_with vouched true
unfolding sync_session_from_server lit
session_test = refl

expired_test : (sync_session_from_server false (refused 401) fresh_client).0 ≡ record fresh_client {
  auth = record (fresh_client.auth) { is_verifying_session = false };
  pq_token = none;
  location = some (lit "/login");
}
unfolding sync_session_from_server lit
expired_test = refl

protected_route-eq-page_iff_example :
    (protected_route (signed_in_with vouched true) (customer ∷ []) (lit "/customer/accounts")
      ≡ page)
    ↔ ((◌≡◌ {A = Bool} false false)
        × (◌≡◌ {A = Bool} true true)
        × (session_requires_reauth (some vouched) ≡ false)
        × (◌≡◌ {A = Bool} true true)
        × MayEnter (customer ∷ []) (some ann))
protected_route-eq-page_iff_example =
    protected_route-eq-page_iff (signed_in_with vouched true) (customer ∷ [])
      (lit "/customer/accounts")

sync-eq-page_iff_example :
    (protected_route
        (sync_session_from_server false (answered vouched) fresh_client).0.auth
        (customer ∷ [])
        (lit "/customer/accounts")
      ≡ page)
    ↔ ((truthy (some (lit "t1")) ≢ none) × Vouches (answered vouched) (customer ∷ []))
sync-eq-page_iff_example =
    sync-eq-page_iff (answered vouched) fresh_client (customer ∷ []) (lit "/customer/accounts")

abbrev first_page : Page
first_page = record { client = fresh_client; pending = false ∷ [] }

Reach-IsConsistent_example : IsConsistent (logout fresh_client)
Reach-IsConsistent_example =
    Reach-IsConsistent {p = first_page} {q = record first_page { client = logout fresh_client }}
      (record { unready = λ _. refl; unnamed = λ _. refl; unheld = λ _. refl })
      (next here (sign_out first_page))

abbrev after_logout : Page
after_logout = record first_page { client = logout fresh_client }

logout-authorization_header_example : authorization_header (load_page (logout fresh_client)) ≡ none
logout-authorization_header_example =
    logout-authorization_header first_page
      {q = record { client = load_page (logout fresh_client); pending = [] }}
      (next here (load after_logout)) (tt, λ h. h)

logout-sync_finish_example :
    let c' = (sync_finish false (answered vouched) (logout fresh_client)).0 in
    (c'.is_authenticated ≡ true) × (c'.user ≡ some ann) × (c'.pq_token ≡ none)
logout-sync_finish_example = logout-sync_finish false vouched ann fresh_client refl

abbrev ann_login : Login
ann_login = record { token = some (lit "t2"); user = some ann }

complete_login-rejected_example :
    let done = complete_login ann_login unreachable fresh_client in
    (done.1 ≡ some ann)
    × ((done.0).is_authenticated ≡ false)
    × ((done.0).user ≡ none)
    × ((done.0).pq_token ≡ none)
    × ((done.0).pq_user ≡ none)
complete_login-rejected_example = complete_login-rejected ann_login unreachable fresh_client tt

no_reauth : session_requires_reauth (some vouched) ≡ false
unfolding session_requires_reauth
no_reauth = refl

reauth : session_requires_reauth (some stale) ≡ true
unfolding session_requires_reauth
reauth = refl

abbrev nowhere : Route
nowhere = record { path = lit "*"; guard = unguarded; component = lit "404" }

abbrev first_match : List Route → Text → Route
first_match table pathname = Option.get_or (find_route table pathname) nowhere

first_match_listed :
    (table : List Route) (pathname : Text) (r : Route)
    → find_route table pathname ≡ some r
    → first_match table pathname ≡ r
first_match_listed table pathname r e = ap (λ (o : Option Route). Option.get_or o nowhere) e

abbrev router : Router
router = record { pick = first_match; pick_listed = first_match_listed }

abbrev dashboard_link : NavLink
dashboard_link = record {
  id = lit "customer-dashboard";
  label = lit "Dashboard";
  path = lit "/customer/dashboard";
  icon = lit "dashboard";
  roles = customer ∷ [];
  required_permission = none;
}

abbrev accounts_link : NavLink
accounts_link = record {
  id = lit "account-summary";
  label = lit "Account Summary";
  path = lit "/customer/accounts";
  icon = lit "account_balance";
  roles = customer ∷ [];
  required_permission = some (lit "view_own_account");
}

abbrev customer_items : List NavItem
customer_items = customer_navigation ++ common_navigation

customer_offered : get_navigation_for_role (some customer) ≡ ok customer_items
unfolding get_navigation_for_role truthy is_empty navigation_config get_property text_eq lit
    to_lower_case
customer_offered = refl

accounts_listed : Mem accounts_link (links_of customer_items)
unfolding links_of customer_navigation
accounts_listed = mem-cons_of_mem dashboard_link mem-cons_self

ann_admitted : protected_route (signed_in_with vouched true) [] (lit "/customer/accounts") ≡ page
unfolding protected_route
ann_admitted = refl

ann_role : user_role (some ann) ≡ some customer
unfolding user_role lit
ann_role = refl

customer_lower : to_lower_case customer ≡ customer
unfolding to_lower_case lit
customer_lower = refl

navigation-shows_example :
    (r : Route) × (find_route routes (lit "/customer/accounts") ≡ some r)
    × (screen router (signed_in_with vouched true) (lit "/customer/accounts") ≡ shows r.component)
navigation-shows_example =
    navigation-shows router (signed_in_with vouched true) customer customer_items accounts_link
      ann_admitted ann_role customer_lower customer_offered accounts_listed

navigation-has_permission_example :
    has_permission (some customer) (lit "view_own_account") ≡ ok true
navigation-has_permission_example =
    navigation-has_permission customer customer_items accounts_link (lit "view_own_account")
      customer_offered accounts_listed refl

settle_within_example :
    (s : Screen) × (settle router 3 (signed_in_with vouched true) (lit "/login") ≡ some s)
settle_within_example =
    settle_within router (signed_in_with vouched true) (lit "/login") refl
      (member customer refl no_reauth refl ann_role)

settle-reauth_required_example : settle router 50 (signed_in_with stale false) (lit "/login") ≡ none
settle-reauth_required_example =
    settle-reauth_required router (signed_in_with stale false) 50 refl refl reauth

settle-certificate_unverified_example :
    settle router 50 (signed_in_with vouched false) (lit "/unauthorized") ≡ none
settle-certificate_unverified_example =
    settle-certificate_unverified router (signed_in_with vouched false) 50 refl refl no_reauth refl
