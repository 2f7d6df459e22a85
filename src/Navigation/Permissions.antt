-- ===== src/Navigation/Permissions.antt =====
-- How the table of links and the table of permissions fit together.
use mathlib.Core.List.{Mem}
use hybrid_quantum_cryptogra.Prelude.{
  ◌≡◌, refl, ap, Bool, true, false, Option, none, some, List, [], ◌∷◌, ◌++◌, arith, every,
  every_sound, filter_by_all,
}
use hybrid_quantum_cryptogra.Js.{
  Text, lit, text_eq, includes, is_empty, to_lower_case, or_empty, Property, own, inherited, absent,
  get_property, own_entry, Result, ok, throw, ok-injective,
}
use hybrid_quantum_cryptogra.Roles.{truthy}
use hybrid_quantum_cryptogra.Rbac.{role_permissions, permitted, has_permission}
use hybrid_quantum_cryptogra.Navigation.Items.{NavLink, NavItem, item_permission, links_of}
use hybrid_quantum_cryptogra.Navigation.Config.{common_navigation}
use hybrid_quantum_cryptogra.Navigation.{
  navigation_config, with_common, get_navigation_for_role, granted,
  filter_navigation_by_permissions,
}

-- What holds of the items of every role, and of the common ones, holds of what a role is offered.
module _ (p : Text → List NavItem → Bool)
    (sections : every (λ entry. p entry.0 (entry.1 ++ common_navigation)) navigation_config ≡ true)
    (common : (key : Text) → p key common_navigation ≡ true)
    (nothing : (key : Text) → p key [] ≡ true) where
  found_holds :
      (key : Text) (found : Property (List NavItem)) {items : List NavItem}
      → get_property key navigation_config ≡ found
      → with_common found ≡ ok items
      → p key items ≡ true
  unfolding with_common
  found_holds key (own section) e h = rw (← ok-injective h) (
      own_entry (λ (k : Text) (s : List NavItem). p k (s ++ common_navigation)) key
        navigation_config sections e)
  found_holds key inherited e h = cc
  found_holds key absent e h = rw (← ok-injective h) (common key)

  pub navigation_holds :
      (role : Text) (items : List NavItem)
      → get_navigation_for_role (some role) ≡ ok items
      → p (to_lower_case role) items ≡ true
  unfolding get_navigation_for_role truthy is_empty
  navigation_holds [] items e = rw (← ok-injective e) (nothing _)
  navigation_holds (c ∷ s) items e = found_holds (to_lower_case (c ∷ s)) _ refl e

is_permitted : Result Bool → Bool
is_permitted (ok b) = b
is_permitted (throw t) = false

is_permitted_sound : (r : Result Bool) → is_permitted r ≡ true → r ≡ ok true
unfolding is_permitted
is_permitted_sound (ok b) h = ap ok h
is_permitted_sound (throw t) h = cc

-- The table of permissions grants the role what the link requires.
entitled : Text → NavLink → Bool
entitled key l = elim (l.required_permission) [
  | none ↦ true
  | some name ↦ is_permitted (permitted (get_property key role_permissions) name)
]

all_entitled : Text → List NavItem → Bool
all_entitled key items = every (entitled key) (links_of items)

config_entitled :
    every (λ entry. all_entitled entry.0 (entry.1 ++ common_navigation)) navigation_config ≡ true
unfolding every all_entitled links_of navigation_config entitled is_permitted permitted get_property
    role_permissions includes text_eq lit
config_entitled = refl

common_entitled : (key : Text) → all_entitled key common_navigation ≡ true
unfolding every all_entitled links_of navigation_config entitled
common_entitled key = refl

entitled_sound :
    (role : Text) (l : NavLink) (name : Text)
    → entitled (to_lower_case role) l ≡ true
    → l.required_permission ≡ some name
    → has_permission (some role) name ≡ ok true
unfolding entitled is_permitted has_permission or_empty
entitled_sound role l name h e = is_permitted_sound _ (rw (e, entitled) at h)

-- A role is offered no link whose required permission it lacks, children of groups included: the two
-- tables agree, whatever the role.
pub navigation-has_permission :
    (role : Text) (items : List NavItem) (l : NavLink) (name : Text)
    → get_navigation_for_role (some role) ≡ ok items
    → Mem l (links_of items)
    → l.required_permission ≡ some name
    → has_permission (some role) name ≡ ok true
unfolding all_entitled every links_of
navigation-has_permission role items l name offered listed required =
    entitled_sound role l name
      (every_sound (entitled (to_lower_case role)) (links_of items)
        (navigation_holds all_entitled config_entitled common_entitled (λ key. refl) role items
          offered)
        listed)
      required

-- No item of the table requires a permission itself: those that do are children of groups.
open_item : NavItem → Bool
open_item item = elim (truthy (item_permission item)) [ none ↦ true | some name ↦ false ]

all_open : Text → List NavItem → Bool
all_open key items = every open_item items

config_open :
    every (λ entry. all_open entry.0 (entry.1 ++ common_navigation)) navigation_config ≡ true
unfolding every all_open open_item navigation_config truthy
config_open = refl

common_open : (key : Text) → all_open key common_navigation ≡ true
unfolding every all_open open_item navigation_config truthy
common_open key = refl

open_granted :
    (permissions : Option (List Text)) (items : List NavItem)
    → every open_item items ≡ true
    → every (λ item. granted permissions (truthy (item_permission item))) items ≡ true
unfolding every open_item granted
open_granted permissions [] h = refl
open_granted permissions (item ∷ items) h = ground (arith, open_granted permissions items)

-- The filter by permissions removes nothing from what a role is offered, whatever permissions the
-- user has, none included.
filter-get_navigation_for_role :
    (role : Text) (items : List NavItem) (permissions : Option (List Text))
    → get_navigation_for_role (some role) ≡ ok items
    → filter_navigation_by_permissions (some items) permissions ≡ items
unfolding filter_navigation_by_permissions all_open every
filter-get_navigation_for_role role items permissions offered = filter_by_all _ items (
    open_granted permissions items
      (navigation_holds all_open config_open common_open (λ key. refl) role items offered))
