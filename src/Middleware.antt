-- ===== src/Middleware.antt =====
-- app/middleware.py: the rate limit, the body-size cap and the choice of what is logged.
pub mod Window
pub mod Expiry
pub mod Limit
use reservac_ia.Base.{
  ℕ, Bool, true, false, not, ◌&&◌, ◌||◌, Option, none, some, List, [], ◌∷◌, ◌++◌, ltb, leb, ◌==◌,
  if◌then◌else◌, any, find, Text, text_eq, codes, ◌*◌,
}
use reservac_ia.Clock.{second}
use reservac_ia.Middleware.Window.{Verdict, hit}

-- `str.startswith`
abbrev pub starts_with : Text → Text → Bool
starts_with [] s = true
starts_with (p ∷ ps) [] = false
starts_with (p ∷ ps) (c ∷ s) = c == p && starts_with ps s

abbrev pub data_prefixes : List Text
data_prefixes =
    codes "/reservations"
    ∷ codes "/rooms"
    ∷ codes "/tables"
    ∷ codes "/reviews"
    ∷ codes "/notifications"
    ∷ []

abbrev pub free_prefixes : List Text
free_prefixes =
    codes "/health"
    ∷ codes "/docs"
    ∷ codes "/redoc"
    ∷ codes "/openapi.json"
    ∷ codes "/app"
    ∷ codes "/static"
    ∷ []

pub data Bucket : Type 0 where
  auth_token auth_other data_routes free : Bucket

-- `RateLimitMiddleware._classify`
unfoldable pub classify : Text → Bucket
classify path =
    if text_eq path (codes "/auth/token")
    then Bucket.auth_token
    else if starts_with (codes "/auth/") path || starts_with (codes "/_debug/") path
    then Bucket.auth_other
    else if any (λ p. starts_with p path) data_prefixes
    then Bucket.data_routes
    else if any (λ p. starts_with p path) free_prefixes
    then Bucket.free
    else Bucket.data_routes

pub record Limits : Type 0 where
  pub rate_limit_auth_per_minute : ℕ
  pub rate_limit_other_per_minute : ℕ
  pub rate_limit_data_per_minute : ℕ

-- The limit of a request, and who it is counted for; none is not limited. `cid` is what the
-- unverified token says, if there is one.
unfoldable pub limit_of : Limits → Bucket → (cid : Option Text) → (ip : Text) → Option (ℕ × Text)
limit_of limits Bucket.auth_token cid ip = some (limits.rate_limit_auth_per_minute, ip)
limit_of limits Bucket.auth_other none ip = some (limits.rate_limit_other_per_minute, ip)
limit_of limits Bucket.auth_other (some []) ip = some (limits.rate_limit_other_per_minute, ip)
limit_of limits Bucket.auth_other (some (c ∷ cid)) ip =
    some (limits.rate_limit_other_per_minute, c ∷ cid)
limit_of limits Bucket.data_routes none ip = some (limits.rate_limit_data_per_minute, ip)
limit_of limits Bucket.data_routes (some []) ip = some (limits.rate_limit_data_per_minute, ip)
limit_of limits Bucket.data_routes (some (c ∷ cid)) ip =
    some (limits.rate_limit_data_per_minute, c ∷ cid)
limit_of limits Bucket.free cid ip = none

-- The store: a list of hits for each key, that a `defaultdict` makes at the first use.
pub record Entry : Type 0 where
  pub bucket : Bucket
  pub ident : Text
  pub hits : List ℕ

abbrev pub bucket_code : Bucket → ℕ
bucket_code Bucket.auth_token = 0
bucket_code Bucket.auth_other = 1
bucket_code Bucket.data_routes = 2
bucket_code Bucket.free = 3

abbrev pub has_key : Bucket → Text → Entry → Bool
has_key bucket ident e = bucket_code e.bucket == bucket_code bucket && text_eq e.ident ident

abbrev pub hits_of : Bucket → Text → List Entry → List ℕ
hits_of bucket ident [] = []
hits_of bucket ident (e ∷ store) =
    if has_key bucket ident e then e.hits else hits_of bucket ident store

abbrev pub put_hits : Bucket → Text → List ℕ → List Entry → List Entry
put_hits bucket ident hits [] = record { bucket = bucket; ident = ident; hits = hits } ∷ []
put_hits bucket ident hits (e ∷ store) =
    if has_key bucket ident e
    then record e { hits = hits } ∷ store
    else e ∷ put_hits bucket ident hits store

-- The window of `dispatch`.
abbrev pub minute : ℕ
minute = 60 * second

-- `RateLimitMiddleware.dispatch` up to the answer 429: the verdict, and the store after it.
unfoldable pub admit :
    Limits
    → (path : Text) (cid : Option Text) (ip : Text) (now : ℕ) → List Entry
    → Verdict × List Entry
admit limits path cid ip now store = elim (limit_of limits (classify path) cid ip) [
  | none ↦ (Verdict.accepted, store)
  | some request ↦
      let (verdict, hits) = hit request.0 minute now (hits_of (classify path) request.1 store) in
      (verdict, put_hits (classify path) request.1 hits store)
]

-- `BodySizeMiddleware.dispatch`: the status that it answers with, if it does. The header is absent,
-- not a number, or a number.
pub data ContentLength : Type 0 where
  absent not_a_number : ContentLength
  number : ℕ → ContentLength

unfoldable pub body_size : (cap : ℕ) → ContentLength → Option ℕ
body_size cap ContentLength.absent = none
body_size cap ContentLength.not_a_number = some 400
body_size cap (ContentLength.number n) = if ltb cap n then some 413 else none

pub data Event : Type 0 where
  auth_success auth_failure mutation : Event

abbrev pub mutating_methods : List Text
mutating_methods = codes "POST" ∷ codes "PATCH" ∷ codes "PUT" ∷ codes "DELETE" ∷ []

-- `AuditLogMiddleware._classify`
unfoldable pub audit_event : (path method : Text) (status_code : ℕ) → Option Event
audit_event path method status_code =
    if starts_with (codes "/auth/") path
    then if leb 200 status_code && ltb status_code 300
      then some Event.auth_success
      else some Event.auth_failure
    else if status_code == 401
    then some Event.auth_failure
    else if any (text_eq method) mutating_methods && not (starts_with (codes "/health") path)
    then some Event.mutation
    else none
