-- ===== src/Routers/Status.antt =====
-- The exceptions that the routes raise and translate; the texts of the details are left out.
use reservac_ia.Base.{Option}
use reservac_ia.Monad.{
  Exn, reservation_error, domain_error, http_error, Result, ok, err, Action, or_raise,
}

-- `except ReservationError`
unfoldable pub conflict_on_reservation : Exn → Exn
conflict_on_reservation (reservation_error reason) = http_error 409
conflict_on_reservation e = e

-- `except DomainError`
unfoldable pub conflict_on_domain : Exn → Exn
conflict_on_domain (domain_error reason) = http_error 409
conflict_on_domain e = e

abbrev pub translated : {A : Type 0} → (Exn → Exn) → Result A → Result A
translated f (ok a) = ok a
translated f (err e) = err (f e)

-- `try: ... except ...: raise HTTPException(...)`
abbrev pub translate : {A : Type 0} → (Exn → Exn) → Action A → Action A
translate f body s = (translated f (body s).0, (body s).1)

abbrev pub or_404 : {A : Type 0} → Option A → Action A
or_404 row = or_raise (http_error 404) row
