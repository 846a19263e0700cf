-- ===== src/Bookings/Plans.antt =====
-- Runs of requests to app/routers as plans of the calendar.
use reservac_ia.Base.{ℕ, suc, ◌≡◌, List}
use reservac_ia.Model.{Env, Db, Reservation}
use reservac_ia.Monad.Leads.{Leads}
use reservac_ia.Routers.Rooms
use reservac_ia.Routers.Tables
use reservac_ia.Routers.Reservations
use reservac_ia.Bookings.Reach.{Request, Reach}

module _ (env : Env) (rows : List Reservation) where
  abbrev Unchanged : Db → Type 0
  Unchanged db = db.reservations ≡ rows

-- The number whose reservation a request may change.
abbrev touched : Request → Db → ℕ
touched (Request.post_reservation body) db = suc db.reservation_seq
touched (Request.patch_reservation i body) db = i
touched (Request.cancel_reservation_at i claimed) db = i
touched _ db = 0
