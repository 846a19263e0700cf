-- ===== src/Scripts/Spanish.antt =====
-- scripts/backfill_spanish.py: Spanish names and notes, and times of day with the offset of the
-- restaurant's zone.
pub mod Words
pub mod Stored
pub mod Laws
use reservac_ia.Base.{
  ℕ, suc, ◌+◌, Bool, true, false, not, ◌&&◌, ◌||◌, Option, none, some, List, [], ◌∷◌, ◌++◌, map,
  ◌==◌, if◌then◌else◌, select, update_where, Text, text_eq, codes,
}
use reservac_ia.Clock.{Offset, Suffix, IsoText, ZoneInfo, localize, iso}
use reservac_ia.Model.{Env, Db, Reservation}
use reservac_ia.Monad.{Action, pure, gets, modify, ◌>>=◌, ◌>>◌}
use reservac_ia.Http.{is_space, no_text, onto_head}

-- `NAME_FIXES`
abbrev pub name_fixes : List (Text × Text)
name_fixes =
    (codes "Andres", codes "Andrés")
    ∷ (codes "Maria", codes "María")
    ∷ (codes "Sofia", codes "Sofía")
    ∷ (codes "Lucia", codes "Lucía")
    ∷ (codes "Sebastian", codes "Sebastián")
    ∷ (codes "Tomas", codes "Tomás")
    ∷ (codes "Nicolas", codes "Nicolás")
    ∷ (codes "Oscar", codes "Óscar")
    ∷ (codes "Martin", codes "Martín")
    ∷ (codes "Monica", codes "Mónica")
    ∷ (codes "Hector", codes "Héctor")
    ∷ (codes "Mia", codes "Mía")
    ∷ (codes "Ivan", codes "Iván")
    ∷ (codes "Ines", codes "Inés")
    ∷ (codes "Noe", codes "Noé")
    ∷ (codes "Garcia", codes "García")
    ∷ (codes "Rodriguez", codes "Rodríguez")
    ∷ (codes "Martinez", codes "Martínez")
    ∷ (codes "Lopez", codes "López")
    ∷ (codes "Gonzalez", codes "González")
    ∷ (codes "Perez", codes "Pérez")
    ∷ (codes "Sanchez", codes "Sánchez")
    ∷ (codes "Ramirez", codes "Ramírez")
    ∷ (codes "Gomez", codes "Gómez")
    ∷ (codes "Diaz", codes "Díaz")
    ∷ (codes "Gutierrez", codes "Gutiérrez")
    ∷ (codes "Chavez", codes "Chávez")
    ∷ (codes "Alvarez", codes "Álvarez")
    ∷ (codes "Jimenez", codes "Jiménez")
    ∷ (codes "Nunez", codes "Núñez")
    ∷ []

-- `NOTE_FIXES`
abbrev pub note_fixes : List (Text × Text)
note_fixes =
    (codes "window seat", codes "mesa junto a la ventana")
    ∷ (codes "high chair", codes "trona")
    ∷ (codes "birthday", codes "cumpleaños")
    ∷ (codes "anniversary", codes "aniversario")
    ∷ (codes "gluten free", codes "sin gluten")
    ∷ (codes "peanut allergy", codes "alergia a frutos secos")
    ∷ (codes "wheelchair access", codes "acceso silla de ruedas")
    ∷ (codes "quiet table", codes "mesa tranquila")
    ∷ (codes "patio preferred", codes "preferencia patio")
    ∷ (codes "booster seat", codes "alzador")
    ∷ []

-- `fixes.get(key, key)`
unfoldable pub get_or_self : List (Text × Text) → Text → Text
get_or_self [] key = key
get_or_self (e ∷ fixes) key =
    let rest = get_or_self fixes key in if text_eq e.0 key then e.1 else rest

-- `str.split()`: the parts between white space that are not empty.
unfoldable pub parts : Text → List Text
parts [] = [] ∷ []
parts (c ∷ s) = let rest = parts s in if is_space c then [] ∷ rest else onto_head c rest

unfoldable pub words : Text → List Text
unfolding parts
words s = select (λ w. not (no_text w)) (parts s)

-- `" ".join(...)`
unfoldable pub join : List Text → Text
join [] = []
join (w ∷ []) = w
join (w ∷ v ∷ ws) = w ++ b' ' ∷ join (v ∷ ws)

unfoldable pub fix_name : Text → Text
unfolding get_or_self words join
fix_name name = join (map (get_or_self name_fixes) (words name))

unfoldable pub fix_note : Option Text → Option Text
unfolding get_or_self
fix_note none = none
fix_note (some note) = some (get_or_self note_fixes note)

-- The suffix gives way to the offset of the zone at that wall clock.
unfoldable pub reinterpret_as_madrid : ZoneInfo → IsoText → IsoText
unfolding iso
reinterpret_as_madrid zone stored = iso (localize zone stored.wall)

-- The tests `!=` of the stored values.
abbrev pub note_eq : Option Text → Option Text → Bool
note_eq none none = true
note_eq (some a) (some b) = text_eq a b
note_eq _ _ = false

abbrev pub offset_eq : Offset → Offset → Bool
offset_eq (Offset.east a) (Offset.east b) = a == b
offset_eq (Offset.west a) (Offset.west b) = a == b
offset_eq _ _ = false

abbrev pub suffix_eq : Suffix → Suffix → Bool
suffix_eq Suffix.naive Suffix.naive = true
suffix_eq Suffix.zulu Suffix.zulu = true
suffix_eq (Suffix.numeric a) (Suffix.numeric b) = offset_eq a b
suffix_eq _ _ = false

abbrev pub iso_eq : IsoText → IsoText → Bool
iso_eq a b = a.wall == b.wall && suffix_eq a.suffix b.suffix

abbrev pub name_changes : Reservation → Bool
name_changes r = not (text_eq (fix_name r.customer_name) r.customer_name)

abbrev pub note_changes : Reservation → Bool
note_changes r = not (note_eq (fix_note r.notes) r.notes)

abbrev pub time_changes : ZoneInfo → Reservation → Bool
time_changes zone r = not (iso_eq (reinterpret_as_madrid zone r.reservation_at) r.reservation_at)

-- The UPDATE sets the columns that change, of the row `x` by the values read as `r`.
abbrev pub set_fixes : ZoneInfo → Reservation → Reservation → Reservation
set_fixes zone r x = record x {
  customer_name = if name_changes r then fix_name r.customer_name else x.customer_name;
  notes = if note_changes r then fix_note r.notes else x.notes;
  reservation_at =
      if time_changes zone r then reinterpret_as_madrid zone r.reservation_at else x.reservation_at;
}

abbrev pub put_fixes : ZoneInfo → Reservation → Db → Db
put_fixes zone r db = record db {
  reservations = update_where (λ x. x.id == r.id) (set_fixes zone r) db.reservations;
}

pub record Fixed : Type 0 where
  pub names : ℕ
  pub notes : ℕ
  pub times : ℕ

abbrev pub one_more : Bool → ℕ → ℕ
one_more changes n = if changes then suc n else n

abbrev pub count_fixes : ZoneInfo → Reservation → Fixed → Fixed
count_fixes zone r fixed = record {
  names = one_more (name_changes r) fixed.names;
  notes = one_more (note_changes r) fixed.notes;
  times = one_more (time_changes zone r) fixed.times;
}

-- The UPDATE of a round, `if sets`.
unfoldable pub write_fixes : ZoneInfo → Reservation → Bool → Action (Unit {0})
write_fixes zone r true = modify (put_fixes zone r)
write_fixes zone r false = pure tt

unfoldable pub fix_rows : ZoneInfo → List Reservation → Fixed → Action Fixed
unfolding write_fixes
fix_rows zone [] fixed = pure fixed
fix_rows zone (r ∷ rows) fixed = do
  write_fixes zone r (name_changes r || (note_changes r || time_changes zone r))
  fix_rows zone rows (count_fixes zone r fixed)

-- What `main` does in its connection.
unfoldable pub backfill_spanish : ZoneInfo → Action Fixed
backfill_spanish zone = do
  rows ← gets (λ db. db.reservations)
  fix_rows zone rows (record { names = 0; notes = 0; times = 0 })
