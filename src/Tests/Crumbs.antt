-- ===== src/Tests/Crumbs.antt =====
-- navigationHelper.js at concrete inputs.
use hybrid_quantum_cryptogra.Prelude.{◌≡◌, refl, none, filter_by}
use hybrid_quantum_cryptogra.Js.{
  lit, text_eq, split_on, push_front, own, inherited, get_property, includes, object_prototype_keys,
  is_empty,
}
use hybrid_quantum_cryptogra.Roles.{truthy}
use hybrid_quantum_cryptogra.Breadcrumbs.{
  Tab, mount_navbar, update_admin_breadcrumb, get_page_name_from_path, route_map, capitalize,
  is_word, upper_word, last_segment,
}
use hybrid_quantum_cryptogra.Breadcrumbs.Agreement.{
  Agrees, here, next, mounted, followed, Reach-Agrees,
}

abbrev fresh : Tab
fresh = record { current_admin_page = none; navbar = none }

listed : get_page_name_from_path (lit "/admin/users") ≡ own (lit "User Management")
unfolding get_page_name_from_path get_property route_map text_eq lit
listed = refl

cut : get_page_name_from_path (lit "/manager/kyc-review/") ≡ own (lit "Kyc Review")
unfolding get_page_name_from_path get_property route_map text_eq lit includes object_prototype_keys
    split_on push_front filter_by is_empty truthy last_segment capitalize is_word upper_word
cut = refl

inherited_name : get_page_name_from_path (lit "toString") ≡ inherited
unfolding get_page_name_from_path get_property route_map text_eq lit includes object_prototype_keys
inherited_name = refl

users_shown : Agrees (update_admin_breadcrumb (lit "Users") (mount_navbar fresh))
unfolding is_empty lit
users_shown =
    Reach-Agrees {s = fresh} {t = update_admin_breadcrumb (lit "Users") (mount_navbar fresh)} tt
      (next (next here (mounted fresh)) (followed (lit "Users") (mount_navbar fresh) refl))
