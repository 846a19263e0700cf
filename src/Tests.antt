-- ===== src/Tests.antt =====
-- Runs at fixed inputs, and the theorems at fixed inputs.
mod Bookings
mod Overlap
mod Reach
mod Queue
mod Runs
mod Security
mod Auth
mod App
mod Scripts
mod SeedRooms
mod Spanish
