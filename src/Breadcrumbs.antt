-- ===== src/Breadcrumbs.antt =====
-- frontend/src/utils/navigationHelper.js, and of frontend/src/components/common/AdminNavbar.jsx the page
-- that the bar names.
pub mod Agreement
use hybrid_quantum_cryptogra.Prelude.{
  ℕ, Bool, true, false, not, ◌&&◌, ◌||◌, ◌==◌, ◌+◌, ◌-◌, leb, Option, none, some, List, [], ◌∷◌,
  map, filter_by, if◌then◌else◌,
}
use hybrid_quantum_cryptogra.Js.{
  Text, lit, is_empty, split_on, Property, own, inherited, absent, get_property,
}
use hybrid_quantum_cryptogra.Roles.{truthy}

-- The entry of `sessionStorage` with the key `currentAdminPage`, and the state of the bar while it is
-- there.
pub record Tab : Type 0 where
  pub current_admin_page : Option Text
  pub navbar : Option Text

-- What `currentAdminPage` holds, or the name of the dashboard.
or_dashboard : Option Text → Text
or_dashboard none = lit "Dashboard"
or_dashboard (some name) = name

unfoldable pub get_current_breadcrumb : Tab → Text
unfolding or_dashboard
get_current_breadcrumb tab = or_dashboard (truthy tab.current_admin_page)

-- The bar when it is first shown.
unfoldable pub mount_navbar : Tab → Tab
mount_navbar tab = record tab { navbar = some (get_current_breadcrumb tab) }

unfoldable pub unmount_navbar : Tab → Tab
unmount_navbar tab = record tab { navbar = none }

heard : Option Text → Text → Option Text
heard none shown = some shown
heard (some name) shown = some name

-- The bar at an event `adminNavigation`; without a bar nothing listens.
unfoldable pub handle_navigation : Text → Option Text → Option Text
unfolding heard
handle_navigation name none = none
handle_navigation name (some shown) = heard (truthy (some name)) shown

unfoldable pub update_admin_breadcrumb : Text → Tab → Tab
update_admin_breadcrumb name tab = record {
  current_admin_page = some name;
  navbar = handle_navigation name tab.navbar;
}

unfoldable pub route_map : List (Text × Text)
route_map =
    (lit "/admin", lit "Dashboard")
    ∷ (lit "/admin/dashboard", lit "Dashboard")
    ∷ (lit "/admin/users", lit "User Management")
    ∷ (lit "/admin/certificates/issue", lit "Issue Certificate")
    ∷ (lit "/admin/certificates/crl", lit "CRL Management")
    ∷ (lit "/admin/roles", lit "Role Management")
    ∷ (lit "/admin/audit/global", lit "Global Audit")
    ∷ (lit "/admin/security", lit "Security Center")
    ∷ (lit "/admin/rbac", lit "RBAC Management")
    ∷ (lit "/admin/authority", lit "Authority Controls")
    ∷ []

-- `\w`
unfoldable pub is_word : ℕ → Bool
is_word c = (leb 48 c && leb c 57) || (leb 65 c && leb c 90) || c == 95 || (leb 97 c && leb c 122)

-- A unit that `\w` matches, in upper case.
unfoldable pub upper_word : ℕ → ℕ
upper_word c = if leb 97 c && leb c 122 then c - 32 else c

-- `s.replace(/\b\w/g, l => l.toUpperCase())`, where `inside` tells whether a word goes on.
unfoldable pub capitalize : (inside : Bool) → Text → Text
unfolding is_word upper_word
capitalize inside [] = []
capitalize inside (c ∷ s) =
    (if is_word c && not inside then upper_word c else c) ∷ capitalize (is_word c) s

-- `segments.pop()`
unfoldable pub last_segment : List Text → Option Text
last_segment [] = none
last_segment (segment ∷ []) = some segment
last_segment (segment ∷ next ∷ segments) = last_segment (next ∷ segments)

spaced : Text → Text
spaced s = map (λ c. if c == 45 then 32 else c) s

title_of : Option Text → Option Text
unfolding spaced
title_of none = none
title_of (some segment) = truthy (some (capitalize false (spaced segment)))

-- What an object inherits is found before the path is cut.
unfoldable pub get_page_name_from_path : Text → Property Text
unfolding or_dashboard title_of
get_page_name_from_path path = elim (get_property path route_map) [
  | own name ↦ own name
  | inherited ↦ inherited
  | absent ↦ own (
      or_dashboard (title_of (last_segment (filter_by (λ s. not (is_empty s)) (split_on 47 path)))))
]
