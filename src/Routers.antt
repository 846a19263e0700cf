-- ===== src/Routers.antt =====
-- app/routers: what each route does after FastAPI has validated the request.
pub mod Status
pub mod Rooms
pub mod Tables
pub mod Reservations
pub mod Reviews
pub mod Notifications
pub mod Auth
pub mod Laws
pub mod Feedback
