-- ===== src/App/Laws.antt =====
-- What the chain of app/main.py ensures, whatever the routes do.
use reservac_ia.Base.{
  ℕ, ◌≡◌, refl, sym, ap, ◌∙◌, Bool, true, false, ◌⊎◌, inl, inr, Option, none, some, List, [], ◌∷◌,
  map, any-snoc, All, Bool-cases, Text, text_eq_refl, arith,
}
use reservac_ia.Monad.{Result, ok, err, Exn}
use reservac_ia.Http.{Request, Response, json_response, lower, has_header, same_header, set_default}
use reservac_ia.Middleware.{Entry, admit, body_size}
use reservac_ia.Middleware.Window.{Verdict}
use reservac_ia.App.{
  World, Handler, ChainSettings, security_headers, set_defaults, stamped, client_ip, cid_unverified,
  content_length_of, add_row, row_at, row_of, or_500, answer_size, answer_client,
  body_size_dispatch, answer_verdict, rate_limit_dispatch, audit_dispatch, headers_dispatch,
  allowlist_dispatch, chain, application,
}
use reservac_ia.App.Networks.{IpAddress, allows}

-- A default that is set stays, and is there.
module _ (name : Text) where
  abbrev pub Has : Response → Type 0
  Has r = has_header name r.headers ≡ true

  set_default-Has : (h : Text × Text) (r : Response) → Has r → Has (set_default h r)
  set_default-Has h r k = elim (Bool-cases (has_header h.0 r.headers)) [
    | inl e ↦ rw e k
    | inr e ↦ rw e (any-snoc (λ x. same_header x.0 name) r.headers h ∙ ground arith)
  ]

  set_defaults-Has : (hs : List (Text × Text)) (r : Response) → Has r → Has (set_defaults hs r)
  unfolding set_defaults
  set_defaults-Has [] r k = k
  set_defaults-Has (h ∷ hs) r k = set_defaults-Has hs (set_default h r) (set_default-Has h r k)

set_default-here : (h : Text × Text) (r : Response) → Has h.0 (set_default h r)
set_default-here h r = elim (Bool-cases (has_header h.0 r.headers)) [
  | inl e ↦ rw e e
  | inr e ↦ rw e (
      any-snoc (λ x. same_header x.0 h.0) r.headers h
      ∙ (let same = text_eq_refl (map lower h.0) in ground arith))
]

set_defaults-all :
    (hs : List (Text × Text)) (r : Response) → All (λ h. Has h.0 (set_defaults hs r)) hs
unfolding set_defaults
set_defaults-all [] r = tt
set_defaults-all (h ∷ hs) r = (
  set_defaults-Has h.0 hs (set_default h r) (set_default-here h r),
  set_defaults-all hs (set_default h r),
)

set_default-status : (h : Text × Text) (r : Response) → (set_default h r).status ≡ r.status
set_default-status h r = elim (Bool-cases (has_header h.0 r.headers)) [
  | inl e ↦ rw e refl
  | inr e ↦ rw e refl
]

set_defaults-status :
    (hs : List (Text × Text)) (r : Response) → (set_defaults hs r).status ≡ r.status
unfolding set_defaults
set_defaults-status [] r = refl
set_defaults-status (h ∷ hs) r = set_defaults-status hs (set_default h r) ∙ set_default-status h r

module _ {S : Type 0} (settings : ChainSettings) (ip : IpAddress) (routes : Handler S)
    (request : Request) (w : World S) where
  abbrev pub permitted : Result Bool
  permitted = allows ip settings.allowed_ips request.client

  abbrev pub verdict : Verdict
  verdict =
      (admit settings.limits request.path (cid_unverified settings request) (client_ip request)
        request.monotonic w.store).0

  abbrev stored : List Entry
  stored =
      (admit settings.limits request.path (cid_unverified settings request) (client_ip request)
        request.monotonic w.store).1

  abbrev pub size_error : Option ℕ
  size_error = body_size settings.max_body_bytes (content_length_of request.content_length)

  abbrev pub after : World S
  after = (application settings ip routes request w).1

  inside : Handler S
  inside = rate_limit_dispatch settings (body_size_dispatch settings routes)

  turned_away :
      (p : Result Bool)
      → p ≡ ok false
      → answer_client settings ip inside request w p ≡ (ok (json_response 403), w)
  unfolding answer_client
  turned_away p h = ap (λ x. answer_client settings ip inside request w x) h

  -- A request of a client that the allowlist does not admit is answered 403, and changes neither
  -- the state of the routes nor the hits of the rate limit.
  pub outsider-forbidden :
      permitted ≡ ok false
      → ((application settings ip routes request w).0.status ≡ 403)
        × (after.app ≡ w.app)
        × (after.store ≡ w.store)
  unfolding application chain headers_dispatch audit_dispatch allowlist_dispatch stamped
      set_defaults inside
  outsider-forbidden h =
      let e = turned_away permitted h in
      (ap (λ x. (or_500 (stamped x.0)).status) e, ap (λ x. x.1.app) e, ap (λ x. x.1.store) e)

  -- The answer of the chain below the audit log.
  abbrev answer : Result Response
  answer = (allowlist_dispatch settings ip inside request w).0

  stamped-all :
      (x : Result Response)
      → ((e : Exn) × (stamped x ≡ err e)) ⊎ All (λ h. Has h.0 (or_500 (stamped x))) security_headers
  unfolding stamped
  stamped-all (err e) = inl (e, refl)
  stamped-all (ok r) = inr (set_defaults-all security_headers r)

  -- Unless the chain of middlewares ends in an exception, the answer of the application has all
  -- five security headers.
  pub application-stamped :
      ((e : Exn) × ((chain settings ip routes request w).0 ≡ err e))
      ⊎ All (λ h. Has h.0 (application settings ip routes request w).0) security_headers
  unfolding application chain headers_dispatch audit_dispatch inside
  application-stamped = stamped-all answer

  -- The layers below the audit log leave it alone, if the routes do.
  module _ (quiet : (u : World S) → (routes request u).1.audit ≡ u.audit) where
    sized-audit :
        (u : World S) (o : Option ℕ) → (answer_size settings routes request u o).1.audit ≡ u.audit
    unfolding answer_size
    sized-audit u none = quiet u
    sized-audit u (some status) = refl

    limited-audit :
        (u : World S) (v : Verdict)
        → (answer_verdict settings (body_size_dispatch settings routes) request u v).1.audit
          ≡ u.audit
    unfolding answer_verdict body_size_dispatch
    limited-audit u Verdict.accepted = sized-audit u size_error
    limited-audit u (Verdict.retry_after n) = refl
    limited-audit u Verdict.index_error = refl

    let_in-audit :
        (p : Result Bool) → (answer_client settings ip inside request w p).1.audit ≡ w.audit
    unfolding inside answer_client rate_limit_dispatch
    let_in-audit (err e) = refl
    let_in-audit (ok false) = refl
    let_in-audit (ok true) = limited-audit (record w { store = stored }) verdict

    row-stamped :
        (x : Result Response) → row_of settings request (stamped x) ≡ row_of settings request x
    unfolding stamped
    row-stamped (err e) = refl
    row-stamped (ok r) = ap (row_at settings request) (set_defaults-status security_headers r)

    -- Where the routes leave the audit log alone, the application adds to it the row of the answer
    -- that comes out of the chain, whichever layer gives it, and no row where the chain ends in an
    -- exception or the request is of no kind that is logged.
    pub application-audited :
        after.audit
        ≡ add_row (row_of settings request (chain settings ip routes request w).0) w.audit
    unfolding application chain headers_dispatch audit_dispatch allowlist_dispatch inside
    application-audited =
        ap (add_row (row_of settings request answer)) (let_in-audit permitted)
        ∙ ap (λ x. add_row x w.audit) (sym (row-stamped answer))
