-- ===== src/Security/Laws.antt =====
-- Who is let in by app/security.py.
use reservac_ia.Base.{
  ℕ, ◌*◌, ◌≤◌, ◌<◌, ◌≡◌, refl, ap, ◌∙◌, subst, false, Option, none, some, Option-cases, Bool-cases,
  inl, inr, Text, text_eq, text_eq→eq, text_eq_refl, arith,
}
use reservac_ia.Monad.{ok, err, bind_result-eq-ok, http_error}
use reservac_ia.Security.{
  Claims, Decoded, Jwt, AuthSettings, Scheme, token_type_access, token_type_refresh, payload,
  check_claims, checked, issue_token, cid_or, create_access_token, decode_token,
  verify_refresh_token, require_agent,
}

-- What the checks establish of the claims.
abbrev pub IsOurs : AuthSettings → Text → Claims → Type 0
IsOurs settings expected_type c = (c.typ ≡ some expected_type) × (c.cid ≡ some settings.client_id)

check_claims-IsOurs :
    (settings : AuthSettings) (expected_type : Text) (c d : Claims)
    → check_claims settings expected_type c ≡ ok d
    → (c ≡ d) × IsOurs settings expected_type c
unfolding check_claims
check_claims-IsOurs settings expected_type c d h = elim (Option-cases c.typ) [
  | inl e ↦ absurd (ground arith)
  | inr (typ, e) ↦ elim (Bool-cases (text_eq typ expected_type)) [
    | inr n ↦ absurd (ground arith)
    | inl t ↦ elim (Option-cases c.cid) [
      | inl f ↦ absurd (ground arith)
      | inr (cid, f) ↦ elim (Bool-cases (text_eq cid settings.client_id)) [
        | inr n ↦ absurd (ground arith)
        | inl u ↦ (
          ground arith,
          (
            e ∙ ap some (text_eq→eq typ expected_type t),
            f ∙ ap some (text_eq→eq cid settings.client_id u),
          ),
        )
      ]
    ]
  ]
]

pub checked-IsOurs :
    (settings : AuthSettings) (expected_type : Text) (r : Decoded) (d : Claims)
    → checked settings expected_type r ≡ ok d
    → (r ≡ Decoded.valid d) × IsOurs settings expected_type d
unfolding checked
checked-IsOurs settings expected_type Decoded.expired d h = absurd (cc)
checked-IsOurs settings expected_type Decoded.invalid d h = absurd (cc)
checked-IsOurs settings expected_type (Decoded.valid c) d h =
    let (same, ours) = check_claims-IsOurs settings expected_type c d h in
    (ap Decoded.valid same, subst (IsOurs settings expected_type) same ours)

-- The claims that the program signs pass the check for their own type and no other.
pub check_claims-payload :
    (settings : AuthSettings) (ttl : ℕ) (token_type jti : Text) (u : ℕ)
    → check_claims settings token_type (payload settings ttl token_type jti u)
      ≡ ok (payload settings ttl token_type jti u)
unfolding check_claims payload
check_claims-payload settings ttl token_type jti u =
    rw (text_eq_refl token_type, text_eq_refl settings.client_id) refl

check_claims-other :
    (settings : AuthSettings) (ttl : ℕ) (token_type other jti : Text) (u : ℕ)
    → text_eq token_type other ≡ false
    → check_claims settings other (payload settings ttl token_type jti u) ≡ err (http_error 401)
unfolding check_claims payload
check_claims-other settings ttl token_type other jti u n = rw n refl

module _ {Token : Type 0} (jwt : Jwt Token) (settings : AuthSettings) where
  -- Where require_agent lets a request in, it came with a bearer token which the decoder accepts
  -- under the secret of the settings and whose claims are of an access token of the client id of
  -- the settings, and the answer is that id.
  pub require_agent-IsOurs :
      (now : ℕ) (credentials : Option (Scheme × Token)) (cid : Text)
      → require_agent jwt settings now credentials ≡ ok cid
      → (token : Token) × (c : Claims) × (credentials ≡ some (Scheme.bearer, token))
        × (jwt.decode now settings.jwt_secret token ≡ Decoded.valid c)
        × IsOurs settings token_type_access c
        × (cid ≡ settings.client_id)
  unfolding require_agent decode_token
  require_agent-IsOurs now none cid h = absurd (cc)
  require_agent-IsOurs now (some (Scheme.other, token)) cid h = absurd (cc)
  require_agent-IsOurs now (some (Scheme.bearer, token)) cid h =
      let (c, e, f) =
        bind_result-eq-ok
          (checked settings token_type_access (jwt.decode now settings.jwt_secret token)) _ h in
      let (found, ours) =
        checked-IsOurs settings token_type_access (jwt.decode now settings.jwt_secret token) c e in
      (token, c, refl, found, ours, named c ours f)
    where
      named :
          (c : Claims)
          → IsOurs settings token_type_access c
          → ok (cid_or settings.client_id c.cid) ≡ ok cid
          → cid ≡ settings.client_id
      named c (typ, e) f = ground arith

  -- From its iat until its exp, an access token that the program issues lets its bearer in as the
  -- client of the settings, and is refused with 401 as a refresh token.
  pub access_token-lem :
      (jti : Text) (u now : ℕ)
      → (payload settings (settings.jwt_ttl_minutes * 60) token_type_access jti u).iat ≤ now
      → now < (payload settings (settings.jwt_ttl_minutes * 60) token_type_access jti u).exp
      → (require_agent jwt settings now
            (some (Scheme.bearer, (create_access_token jwt settings jti u).token))
          ≡ ok settings.client_id)
        × (verify_refresh_token jwt settings now ((create_access_token jwt settings jti u).token)
            ≡ err (http_error 401))
  unfolding require_agent verify_refresh_token create_access_token issue_token decode_token checked
  access_token-lem jti u now from until =
      let c = payload settings (settings.jwt_ttl_minutes * 60) token_type_access jti u in
      let read = jwt.decode_encode now settings.jwt_secret c from until in
      (
        rw (read, text_eq_refl settings.client_id) refl,
        ap (checked settings token_type_refresh) read
            ∙ check_claims-other settings (settings.jwt_ttl_minutes * 60) token_type_access
                token_type_refresh jti u refl,
      )
