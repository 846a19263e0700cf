-- ===== src/Crud/Conflict.antt =====
-- Conflict detection, availability and the choice of a table (app/crud.py).
mod Defs
unfoldable pub use Defs.*
