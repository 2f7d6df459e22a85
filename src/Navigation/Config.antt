-- ===== src/Navigation/Config.antt =====
-- The table of links in frontend/src/config/navigationConfig.js, a module for each part of it.
mod Clients
mod Branch
mod Audit
mod Admin
unfoldable pub use Clients.*
unfoldable pub use Branch.*
unfoldable pub use Audit.*
unfoldable pub use Admin.*
