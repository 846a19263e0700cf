-- ===== src/Notifications/Templates.antt =====
-- app/notifications/templates.py: the four Spanish messages.
use reservac_ia.Base.{
  ℕ, zero, suc, ◌+◌, ◌/◌, ◌%◌, ltb, ◌==◌, if◌then◌else◌, Option, none, some, List, [], ◌∷◌, ◌++◌,
  length, take, drop, Text, codes,
}
use reservac_ia.Clock.{instant, parse_ts, at_zone}
use reservac_ia.Model.{Env, NotificationKind}
use reservac_ia.Monad.{Result, ok, err, type_error, value_error, bind_result}
use reservac_ia.Crud.Lookup.{TableOut, ReservationOut}

-- A template is text with placeholders, as `str.format` reads it.
pub data Piece : Type 0 where
  lit : Text → Piece
  date time party room code : Piece

abbrev signature : Text
signature = codes " — La Posada de la Pepa"

abbrev pub created_template : List Piece
created_template =
    lit (codes "¡Reserva confirmada! Te esperamos el ")
    ∷ date
    ∷ lit (codes " a las ")
    ∷ time
    ∷ lit (codes " para ")
    ∷ party
    ∷ lit (codes " personas en ")
    ∷ room
    ∷ lit (codes ". Código de reserva: ")
    ∷ code
    ∷ lit (codes ".")
    ∷ lit signature
    ∷ []

abbrev pub updated_template : List Piece
updated_template =
    lit (codes "Tu reserva ")
    ∷ code
    ∷ lit (codes " ha cambiado: ")
    ∷ date
    ∷ lit (codes " a las ")
    ∷ time
    ∷ lit (codes " para ")
    ∷ party
    ∷ lit (codes " personas en ")
    ∷ room
    ∷ lit (codes ".")
    ∷ lit signature
    ∷ []

abbrev pub cancelled_template : List Piece
cancelled_template =
    lit (codes "Tu reserva ")
    ∷ code
    ∷ lit (codes " para el ")
    ∷ date
    ∷ lit (codes " ha sido cancelada. Esperamos verte pronto.")
    ∷ lit signature
    ∷ []

abbrev pub reminder_template : List Piece
reminder_template =
    lit (codes "Recordatorio: te esperamos mañana, ")
    ∷ date
    ∷ lit (codes " a las ")
    ∷ time
    ∷ lit (codes ", para ")
    ∷ party
    ∷ lit (codes " personas (reserva ")
    ∷ code
    ∷ lit (codes ").")
    ∷ lit signature
    ∷ []

-- `_TEMPLATES`; there is none for `custom`.
abbrev pub template_of : NotificationKind → Option (List Piece)
template_of NotificationKind.created = some created_template
template_of NotificationKind.updated = some updated_template
template_of NotificationKind.cancelled = some cancelled_template
template_of NotificationKind.reminder = some reminder_template
template_of NotificationKind.custom = none

-- `str(n)`: the digits are put in front of `acc`. Each round divides by ten, so `n + 1` rounds do.
decimal_go : ℕ → ℕ → Text → Text
decimal_go zero n acc = acc
decimal_go (suc fuel) n acc =
    let digits = (b'0' + n % 10) ∷ acc in
    let rest = decimal_go fuel (n / 10) digits in if ltb n 10 then digits else rest

unfoldable pub decimal : ℕ → Text
unfolding decimal_go
decimal n = decimal_go (suc n) n []

-- `_format_code`; `len(None)` is a TypeError.
unfoldable pub format_code : Option Text → Result Text
format_code none = err type_error
format_code (some raw) = ok (if length raw == 6 then take 3 raw ++ b'-' ∷ drop 3 raw else raw)

-- `(table.get("room") or {}).get("name") or "el restaurante"`
abbrev nonempty_or : Text → Text → Text
nonempty_or [] d = d
nonempty_or (c ∷ s) d = c ∷ s

unfoldable pub room_name : Option TableOut → Text
room_name none = codes "el restaurante"
room_name (some t) = elim t.room [
  | none ↦ codes "el restaurante"
  | some r ↦ nonempty_or r.name (codes "el restaurante")
]

pub record Filling : Type 0 where
  pub date : Text
  pub time : Text
  pub party : Text
  pub room : Text
  pub code : Text

fill_piece : Filling → Piece → Text
fill_piece f (Piece.lit s) = s
fill_piece f Piece.date = f.date
fill_piece f Piece.time = f.time
fill_piece f Piece.party = f.party
fill_piece f Piece.room = f.room
fill_piece f Piece.code = f.code

-- `str.format`
unfoldable pub format : Filling → List Piece → Text
unfolding fill_piece
format f [] = []
format f (p ∷ ps) = fill_piece f p ++ format f ps

unfoldable pub filling : Env → ReservationOut → Text → Filling
unfolding decimal room_name
filling env out code_text =
    let r = out.reservation in
    let when_local = at_zone env.zone (instant (parse_ts env.zone r.reservation_at)) in
    record {
      date = env.strftime env.settings.date_format when_local.wall;
      time = env.strftime env.settings.time_format when_local.wall;
      party = decimal r.party_size;
      room = room_name out.table;
      code = code_text;
    }

unfoldable pub render : Env → NotificationKind → ReservationOut → Result Text
unfolding format filling format_code
render env kind out = elim (template_of kind) [
  | none ↦ err value_error
  | some template ↦
      bind_result (format_code out.reservation.confirmation_code)
        λ code_text. ok (format (filling env out code_text) template)
]
