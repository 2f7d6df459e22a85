-- ===== src/Js.antt =====
-- What the source uses of JavaScript itself: strings, finite numbers, the tables that it keeps as
-- object literals, and exceptions.
mod Strings
mod Trimming
mod Numbers
mod Objects
mod Exceptions
mod Splitting
unfoldable pub use Strings.*
unfoldable pub use Trimming.*
unfoldable pub use Numbers.*
unfoldable pub use Objects.*
unfoldable pub use Exceptions.*
unfoldable pub use Splitting.*
