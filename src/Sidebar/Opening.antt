-- ===== src/Sidebar/Opening.antt =====
-- frontend/src/components/common/RoleBasedSidebar.jsx: the group of the page is open.
use hybrid_quantum_cryptogra.Prelude.{
  ◌≡◌, refl, ap, ◌∙◌, Bool, true, false, some, List, [], ◌∷◌, ◌++◌, if◌then◌else◌, Bool-cases, inl,
  inr,
}
use hybrid_quantum_cryptogra.Js.{Text, text_eq, text_eq_refl}
use hybrid_quantum_cryptogra.Navigation.Items.{NavGroup, NavItem, link, group}
use hybrid_quantum_cryptogra.Keystore.Platform.{get, put}
use hybrid_quantum_cryptogra.Keystore.Database.{get-put}
use hybrid_quantum_cryptogra.Sidebar.{
  Sidebar, has_path, active_groups, open_active, replace_groups, is_open,
}

get-put_keeps :
    (id j : Text) (groups : List (Text × Bool))
    → get j groups ≡ some true
    → get j (put id true groups) ≡ some true
get-put_keeps id j groups h = get-put id j true groups ∙ kept (text_eq id j)
  where
    kept : (same : Bool) → (if same then some true else get j groups) ≡ some true
    kept true = refl
    kept false = h

get-put_self : (id : Text) (groups : List (Text × Bool)) → get id (put id true groups) ≡ some true
get-put_self id groups = get-put id id true groups ∙ rw (text_eq_refl id) refl

-- A group that holds the page is among those that are opened.
get-active_groups :
    (path : Text) (before : List NavItem) (g : NavGroup) (following : List NavItem)
    → has_path path g.children ≡ true
    → get g.id (active_groups path (before ++ (group g ∷ following))) ≡ some true
unfolding active_groups
get-active_groups path [] g following here =
    rw here (get-put_self g.id (active_groups path following))
get-active_groups path (link l ∷ before) g following here =
    get-active_groups path before g following here
get-active_groups path (group h ∷ before) g following here =
    elim (Bool-cases (has_path path h.children)) [
      | inl active ↦ rw active (
          get-put_keeps h.id g.id (active_groups path (before ++ (group g ∷ following)))
            (get-active_groups path before g following here))
      | inr other ↦ rw other (get-active_groups path before g following here)
    ]

replaced :
    (groups : List (Text × Bool)) (id : Text) (s : Sidebar)
    → get id groups ≡ some true
    → is_open id (replace_groups groups s) ≡ true
unfolding replace_groups is_open get
replaced [] id s h = cc
replaced (entry ∷ entries) id s h = rw (h, is_open) refl

-- When the page has changed, each group of the sidebar with a link to it is open.
pub open_active-is_open :
    (path : Text) (before : List NavItem) (g : NavGroup) (following : List NavItem) (s : Sidebar)
    → s.navigation_items ≡ before ++ (group g ∷ following)
    → has_path path g.children ≡ true
    → is_open g.id (open_active path s) ≡ true
unfolding open_active
open_active-is_open path before g following s listed here =
    replaced (active_groups path s.navigation_items) g.id s (
      ap (λ items. get g.id (active_groups path items)) listed
      ∙ get-active_groups path before g following here)
