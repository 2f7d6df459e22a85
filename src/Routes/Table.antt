-- ===== src/Routes/Table.antt =====
-- The table of routes in frontend/src/routes/ComprehensiveRoutes.jsx, a module for each part of it.
mod Clients
mod Branch
mod Control
unfoldable pub use Clients.*
unfoldable pub use Branch.*
unfoldable pub use Control.*
