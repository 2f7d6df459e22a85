-- ===== src/Routes/Items.antt =====
-- The shape of a route in frontend/src/routes/ComprehensiveRoutes.jsx: a path, the component, and
-- what stands around it.
use hybrid_quantum_cryptogra.Prelude.{List}
use hybrid_quantum_cryptogra.Js.{Text}

pub data Guard : Type 0 where
  -- No check, or a redirect to the dashboard for whoever is signed in.
  unguarded : Guard
  guest_only : Guard
  -- Under the dashboard layout, whose `ProtectedRoute` names no role; then, with one that does.
  layout : Guard
  layout_for : List Text → Guard

pub record Route : Type 0 where
  pub path : Text
  pub guard : Guard
  pub component : Text
