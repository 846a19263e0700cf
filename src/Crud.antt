-- ===== src/Crud.antt =====
-- app/crud.py: lookups, rooms, tables, conflict detection, reservations.
pub mod Lookup
pub mod Conflict
pub mod Reservations
pub mod Rooms
pub mod Tables
pub mod Reviews
