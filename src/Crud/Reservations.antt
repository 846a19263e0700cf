-- ===== src/Crud/Reservations.antt =====
-- Reservations in app/crud.py: creating, changing, cancelling and listing them.
pub mod Enqueue
mod Create
mod Change
mod Cancel
mod Queries
unfoldable pub use Enqueue.*
unfoldable pub use Create.*
unfoldable pub use Change.*
unfoldable pub use Cancel.*
unfoldable pub use Queries.*
