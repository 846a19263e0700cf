-- ===== src/Bookings.antt =====
-- What app/crud.py has to keep of the bookings, and the proofs that its operations keep it.
pub mod Frame
pub mod Valid
pub mod Placing
pub mod Best
pub mod Create
pub mod Cancel
pub mod Change
pub mod Update
pub mod Tables
pub mod TableUpdate
pub mod Rooms
pub mod Reach
pub mod Headline
pub mod Reminders
pub mod ByCode
pub mod Announced
pub mod Inserted
pub mod Booked
pub mod Quiet
pub mod Calendar
pub mod Refines
pub mod Plans
