-- ===== src/Tests/Sidebar.antt =====
-- RoleBasedSidebar.jsx at concrete inputs.
use hybrid_quantum_cryptogra.Prelude.{◌≡◌, refl, true, false}
use hybrid_quantum_cryptogra.Js.{lit, text_eq}
use hybrid_quantum_cryptogra.Keystore.Platform.{get, put}
use hybrid_quantum_cryptogra.Sidebar.{
  initial_sidebar, is_open, toggle_group, handle_collapse_toggle,
}

opened : is_open (lit "audit") (toggle_group (lit "audit") initial_sidebar) ≡ true
unfolding is_open toggle_group initial_sidebar get put text_eq lit
opened = refl

collapsed :
    is_open (lit "audit") (handle_collapse_toggle (toggle_group (lit "audit") initial_sidebar))
    ≡ false
unfolding is_open toggle_group handle_collapse_toggle initial_sidebar get put text_eq lit
collapsed = refl
