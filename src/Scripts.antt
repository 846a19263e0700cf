-- ===== src/Scripts.antt =====
-- scripts/: the loaders and corrections that an operator runs by hand.
pub mod SeedTables
pub mod SeedRooms
pub mod Spanish
