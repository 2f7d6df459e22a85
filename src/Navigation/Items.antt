-- ===== src/Navigation/Items.antt =====
-- The shape of an entry in frontend/src/config/navigationConfig.js. The comment there lists the
-- fields; a group has links for children, and groups are not nested.
use hybrid_quantum_cryptogra.Prelude.{Option, none, List, [], ◌∷◌, ◌++◌}
use hybrid_quantum_cryptogra.Js.{Text}

pub record NavLink : Type 0 where
  pub id : Text
  pub label : Text
  pub path : Text
  pub icon : Text
  pub roles : List Text
  pub required_permission : Option Text

pub record NavGroup : Type 0 where
  pub id : Text
  pub label : Text
  pub icon : Text
  pub roles : List Text
  pub children : List NavLink

pub data NavItem : Type 0 where
  link : NavLink → NavItem
  group : NavGroup → NavItem

-- `item.roles` and `item.requiredPermission`, which no group has.
abbrev pub item_roles : NavItem → List Text
item_roles (link l) = l.roles
item_roles (group g) = g.roles

abbrev pub item_permission : NavItem → Option Text
item_permission (link l) = l.required_permission
item_permission (group g) = none

-- Every link that a list of items offers, those in groups included.
unfoldable pub links_of : List NavItem → List NavLink
links_of [] = []
links_of (link l ∷ items) = l ∷ links_of items
links_of (group g ∷ items) = g.children ++ links_of items
