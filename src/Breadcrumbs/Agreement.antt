-- ===== src/Breadcrumbs/Agreement.antt =====
-- frontend/src/components/common/AdminNavbar.jsx: the bar names the page that the tab remembers.
use hybrid_quantum_cryptogra.Prelude.{◌≡◌, refl, false, Option, none, some}
use hybrid_quantum_cryptogra.Js.{Text, is_empty}
use hybrid_quantum_cryptogra.Roles.{truthy}
use hybrid_quantum_cryptogra.Breadcrumbs.{
  Tab, get_current_breadcrumb, mount_navbar, unmount_navbar, handle_navigation,
  update_admin_breadcrumb, heard, or_dashboard,
}

-- What happens in a tab: the bar comes or goes, or a link with a name is followed.
pub data Event : Tab → Tab → Type 0 where
  mounted : (tab : Tab) → Event tab (mount_navbar tab)
  unmounted : (tab : Tab) → Event tab (unmount_navbar tab)
  followed :
      (name : Text) (tab : Tab)
      → is_empty name ≡ false
      → Event tab (update_admin_breadcrumb name tab)

pub data Reach (s : Tab) : Tab → Type 0 where
  here : Reach s s
  next : {t u : Tab} → Reach s t → Event t u → Reach s u

abbrev pub Names : Option Text → Text → Type 0
Names none name = Unit
Names (some shown) name = shown ≡ name

-- The bar, where it is there, names the page that the tab remembers.
abbrev pub Agrees : Tab → Type 0
Agrees tab = Names tab.navbar (get_current_breadcrumb tab)

followed-Names :
    (name : Text) (shown : Option Text)
    → is_empty name ≡ false
    → Names (handle_navigation name shown) (or_dashboard (truthy (some name)))
unfolding handle_navigation heard truthy or_dashboard
followed-Names name none h = tt
followed-Names name (some shown) h = rw h refl

Event-Agrees : {s t : Tab} → Event s t → Agrees s → Agrees t
unfolding mount_navbar unmount_navbar update_admin_breadcrumb get_current_breadcrumb
Event-Agrees (mounted tab) h = refl
Event-Agrees (unmounted tab) h = tt
Event-Agrees (followed name tab named) h = followed-Names name tab.navbar named

-- When the bar names the page that the tab remembers, or is not there, this stays so: whatever bars come
-- and go and whatever links with a name that is not empty are followed.
pub Reach-Agrees : {s t : Tab} → Agrees s → Reach s t → Agrees t
Reach-Agrees h here = h
Reach-Agrees h (next r e) = Event-Agrees e (Reach-Agrees h r)
