-- ===== src/App.antt =====
-- app/main.py: the chain of middlewares round the routes, with those of app/security.py and
-- app/middleware.py.
pub mod Networks
pub mod Laws
use reservac_ia.Base.{
  ℕ, Bool, true, false, not, ◌&&◌, Option, none, some, List, [], ◌∷◌, ◌++◌, map, if◌then◌else◌, any,
  Text, codes, text_eq,
}
use reservac_ia.Monad.{Result, ok, err, value_error, type_error, Exn}
use reservac_ia.Http.{
  Request, Response, json_response, lower, set_default, strip, after_first, isdigit, int_of,
}
use reservac_ia.Middleware.{
  Entry, Limits, admit, body_size, ContentLength, Event, audit_event, starts_with,
}
use reservac_ia.Middleware.Window.{Verdict}
use reservac_ia.Notifications.Templates.{decimal}
use reservac_ia.App.Networks.{IpAddress, allows}

-- A line of the audit log.
pub record AuditRow : Type 0 where
  pub ts : ℕ
  pub event : Event
  pub method : Text
  pub path : Text
  pub status : ℕ
  pub ip : Text
  pub cid : Option Text
  pub body_bytes : Option ℕ
  pub fp : Text

-- What the requests share: the hits of the rate limit, the audit log, and the state of the routes.
pub record World (S : Type 0) : Type 0 where
  pub store : List Entry
  pub audit : List AuditRow
  pub app : S

-- An exception that nobody handles is an `err`.
abbrev pub Handler : Type 0 → Type 0
Handler S = Request → World S → Result Response × World S

-- `HEADERS`
abbrev pub security_headers : List (Text × Text)
security_headers =
    (codes "X-Content-Type-Options", codes "nosniff")
    ∷ (codes "X-Frame-Options", codes "DENY")
    ∷ (codes "Referrer-Policy", codes "no-referrer")
    ∷ (codes "X-Robots-Tag", codes "noindex, nofollow")
    ∷ (codes "Strict-Transport-Security", codes "max-age=31536000; includeSubDomains")
    ∷ []

unfoldable pub set_defaults : List (Text × Text) → Response → Response
set_defaults [] r = r
set_defaults (h ∷ hs) r = set_defaults hs (set_default h r)

-- `_client_ip`
abbrev pub client_ip : Request → Text
client_ip request = elim request.client [ none ↦ codes "unknown" | some host ↦ host ]

-- The settings that the chain reads. PyJWT without verification answers with the `cid` of the
-- claims, or none for an InvalidTokenError; hashlib makes the fingerprint.
pub record ChainSettings : Type 0 where
  pub allowed_ips : Text
  pub limits : Limits
  pub max_body_bytes : ℕ
  pub decode_unverified : Text → Option (Option Text)
  pub fingerprint : Text → Text

-- `_cid_unverified`
unfoldable pub cid_unverified : ChainSettings → Request → Option Text
unfolding strip after_first
cid_unverified settings request =
    if starts_with (codes "bearer ") (map lower request.authorization)
    then (elim (settings.decode_unverified (strip (after_first b' ' request.authorization))) [
      | none ↦ none
      | some cid ↦ cid
    ])
    else none

-- `int(cl)`; a negative number is below every cap, like 0.
unfoldable pub content_length_of : Option Text → ContentLength
unfolding int_of
content_length_of none = ContentLength.absent
content_length_of (some text) = elim (int_of text) [
  | none ↦ ContentLength.not_a_number
  | some (true, n) ↦ ContentLength.number 0
  | some (false, n) ↦ ContentLength.number n
]

-- `int(body_len) if body_len and body_len.isdigit() else None`
unfoldable pub body_bytes_of : Option Text → Option ℕ
unfolding int_of
body_bytes_of none = none
body_bytes_of (some text) =
    if isdigit text then (elim (int_of text) [ none ↦ none | some (minus, n) ↦ some n ]) else none

-- The row of an answer; an append that fails is not modelled.
unfoldable pub audit_row : ChainSettings → Request → ℕ → Event → AuditRow
audit_row settings request status event = record {
  ts = request.utc;
  event = event;
  method = request.method;
  path = request.path;
  status = status;
  ip = client_ip request;
  cid = cid_unverified settings request;
  body_bytes = body_bytes_of request.content_length;
  fp = settings.fingerprint (request.user_agent ++ b'|' ∷ client_ip request ++ b'|' ∷ request.path);
}

abbrev pub add_row : Option AuditRow → List AuditRow → List AuditRow
add_row none rows = rows
add_row (some row) rows = rows ++ row ∷ []

unfoldable pub row_at : ChainSettings → Request → ℕ → Option AuditRow
unfolding audit_row
row_at settings request status = elim (audit_event request.path request.method status) [
  | none ↦ none
  | some event ↦ some (audit_row settings request status event)
]

abbrev pub row_of : ChainSettings → Request → Result Response → Option AuditRow
row_of settings request (err e) = none
row_of settings request (ok r) = row_at settings request r.status

unfoldable pub stamped : Result Response → Result Response
unfolding set_defaults
stamped (err e) = err e
stamped (ok r) = ok (set_defaults security_headers r)

-- `_unhandled_exception_handler`
abbrev pub or_500 : Result Response → Response
or_500 (ok r) = r
or_500 (err e) = json_response 500

module _ {S : Type 0} (settings : ChainSettings) where
  -- `BodySizeMiddleware.dispatch`
  unfoldable pub answer_size : Handler S → Request → World S → Option ℕ → Result Response × World S
  answer_size call_next request w none = call_next request w
  answer_size call_next request w (some status) = (ok (json_response status), w)

  unfoldable pub body_size_dispatch : Handler S → Handler S
  unfolding answer_size
  body_size_dispatch call_next request w =
      answer_size call_next request w
        (body_size settings.max_body_bytes (content_length_of request.content_length))

  -- The end of `RateLimitMiddleware.dispatch`
  unfoldable pub answer_verdict :
      Handler S → Request → World S → Verdict → Result Response × World S
  answer_verdict call_next request w Verdict.accepted = call_next request w
  answer_verdict call_next request w (Verdict.retry_after seconds) =
      (ok (record { status = 429; headers = (codes "Retry-After", decimal seconds) ∷ [] }), w)
  answer_verdict call_next request w Verdict.index_error = (err Exn.index_error, w)

  unfoldable pub rate_limit_dispatch : Handler S → Handler S
  unfolding answer_verdict
  rate_limit_dispatch call_next request w =
      let (verdict, store) =
        admit settings.limits request.path (cid_unverified settings request) (client_ip request)
          request.monotonic w.store in
      answer_verdict call_next request (record w { store = store }) verdict

  -- `AuditLogMiddleware.dispatch`; an exception passes through.
  unfoldable pub audit_dispatch : Handler S → Handler S
  audit_dispatch call_next request w =
      let (answer, after) = call_next request w in
      (answer, record after { audit = add_row (row_of settings request answer) after.audit })

  -- `SecurityHeadersMiddleware.dispatch`
  unfoldable pub headers_dispatch : Handler S → Handler S
  unfolding stamped
  headers_dispatch call_next request w =
      let (answer, after) = call_next request w in (stamped answer, after)

  module _ (ip : IpAddress) where
    -- `IPAllowlistMiddleware.dispatch`
    unfoldable pub answer_client :
        Handler S → Request → World S → Result Bool → Result Response × World S
    answer_client call_next request w (err e) = (err e, w)
    answer_client call_next request w (ok false) = (ok (json_response 403), w)
    answer_client call_next request w (ok true) = call_next request w

    unfoldable pub allowlist_dispatch : Handler S → Handler S
    unfolding answer_client
    allowlist_dispatch call_next request w =
        answer_client call_next request w (allows ip settings.allowed_ips request.client)

    -- The order of `add_middleware`: the last is the outermost.
    unfoldable pub chain : Handler S → Handler S
    chain routes =
        headers_dispatch
          (audit_dispatch (allowlist_dispatch (rate_limit_dispatch (body_size_dispatch routes))))

    -- The application: Starlette's outermost layer calls `_unhandled_exception_handler`, which
    -- answers 500.
    unfoldable pub application : Handler S → Request → World S → Response × World S
    unfolding chain
    application routes request w =
        let (answer, after) = chain routes request w in (or_500 answer, after)
