-- ===== src/Security.antt =====
-- app/security.py: client credentials, access and refresh tokens. PyJWT is a
-- parameter.
pub mod Laws
use reservac_ia.Base.{
  ℕ, ◌+◌, ◌-◌, ◌*◌, ◌/◌, ◌≤◌, ◌<◌, ◌≡◌, Bool, true, false, not, ◌&&◌, Option, none, some, Text,
  text_eq, codes, if◌then◌else◌,
}
use reservac_ia.Clock.{second, DateTime, ZoneInfo, localize, at_zone, instant}
use reservac_ia.Monad.{Result, ok, err, bind_result, http_error}

-- `typ` and `cid` are none where they are missing or no text.
pub record Claims : Type 0 where
  pub sub : Text
  pub cid : Option Text
  pub typ : Option Text
  pub jti : Text
  pub iat : ℕ
  pub exp : ℕ

-- `jwt.decode`: ExpiredSignatureError, another InvalidTokenError, or the claims.
pub data Decoded : Type 0 where
  expired invalid : Decoded
  valid : Claims → Decoded

-- PyJWT with HS256, at a Unix time. Documented: a token reads back under the secret that signed it,
-- from its `iat` until just before its `exp`.
pub record Jwt (Token : Type 0) : Type 0 where
  pub encode : Text → Claims → Token
  pub decode : (now : ℕ) → Text → Token → Decoded
  pub decode_encode :
      (now : ℕ) (secret : Text) (c : Claims)
      → c.iat ≤ now
      → now < c.exp
      → decode now secret (encode secret c) ≡ Decoded.valid c

pub record AuthSettings : Type 0 where
  pub zone : ZoneInfo
  pub jwt_secret : Text
  pub jwt_ttl_minutes : ℕ
  pub refresh_ttl_days : ℕ
  pub client_id : Text
  pub client_secret : Text
  pub datetime_format : Text
  pub local_mode : Bool

abbrev pub token_type_access : Text
token_type_access = codes "access"

abbrev pub token_type_refresh : Text
token_type_refresh = codes "refresh"

unfoldable pub verify_client_credentials : Text → Text → AuthSettings → Bool
verify_client_credentials client_id client_secret settings =
    text_eq client_id settings.client_id && text_eq client_secret settings.client_secret

-- `int(dt.timestamp())` for an instant; 1970 begins 719163 days after instants do.
abbrev pub unix : ℕ → ℕ
unix u = u / second - 719_163 * 86_400

-- `now + timedelta(seconds=...)`: wall-clock arithmetic in the restaurant's zone.
unfoldable pub expiry : ZoneInfo → ℕ → ℕ → DateTime
expiry zone u ttl_seconds = localize zone ((at_zone zone u).wall + ttl_seconds * second)

-- The payload of `_issue_token` when the clock reads `u`, with the text of `secrets.token_hex`.
unfoldable pub payload : AuthSettings → ℕ → Text → Text → ℕ → Claims
unfolding expiry
payload settings ttl_seconds token_type jti u = record {
  sub = settings.client_id;
  cid = some settings.client_id;
  typ = some token_type;
  jti = jti;
  iat = unix (instant (at_zone settings.zone u));
  exp = unix (instant (expiry settings.zone u ttl_seconds));
}

-- The triple that `_issue_token` returns.
pub record Issued (Token : Type 0) : Type 0 where
  pub token : Token
  pub expires_in : ℕ
  pub expires_at : DateTime

pub data Scheme : Type 0 where
  bearer other : Scheme

-- `if typ != expected ... if cid is no text or not the client's ...`
unfoldable pub check_claims : AuthSettings → Text → Claims → Result Claims
check_claims settings expected_type claims = elim claims.typ [
  | none ↦ err (http_error 401)
  | some typ ↦
      if text_eq typ expected_type
      then (elim claims.cid [
        | none ↦ err (http_error 401)
        | some cid ↦ if text_eq cid settings.client_id then ok claims else err (http_error 401)
      ])
      else err (http_error 401)
]

unfoldable pub checked : AuthSettings → Text → Decoded → Result Claims
unfolding check_claims
checked settings expected_type Decoded.expired = err (http_error 401)
checked settings expected_type Decoded.invalid = err (http_error 401)
checked settings expected_type (Decoded.valid claims) = check_claims settings expected_type claims

-- `claims["cid"]`, which `_decode` has found to be a text.
abbrev pub cid_or : Text → Option Text → Text
cid_or d none = d
cid_or d (some c) = c

module _ {Token : Type 0} (jwt : Jwt Token) (settings : AuthSettings) where
  unfoldable pub issue_token : (ttl_seconds : ℕ) (token_type jti : Text) → ℕ → Issued Token
  unfolding payload
  issue_token ttl_seconds token_type jti u = record {
    token = jwt.encode settings.jwt_secret (payload settings ttl_seconds token_type jti u);
    expires_in = ttl_seconds;
    expires_at = expiry settings.zone u ttl_seconds;
  }

  unfoldable pub create_access_token : Text → ℕ → Issued Token
  unfolding issue_token
  create_access_token jti u = issue_token (settings.jwt_ttl_minutes * 60) token_type_access jti u

  unfoldable pub create_refresh_token : Text → ℕ → Issued Token
  unfolding issue_token
  create_refresh_token jti u =
      issue_token (settings.refresh_ttl_days * 86_400) token_type_refresh jti u

  -- `_decode`
  unfoldable pub decode_token : (now : ℕ) → Token → (expected_type : Text) → Result Claims
  unfolding checked
  decode_token now token expected_type =
      checked settings expected_type (jwt.decode now settings.jwt_secret token)

  unfoldable pub verify_refresh_token : (now : ℕ) → Token → Result Claims
  unfolding decode_token
  verify_refresh_token now token = decode_token now token token_type_refresh

  -- The agent's client id; credentials are a scheme and a token.
  unfoldable pub require_agent : (now : ℕ) → Option (Scheme × Token) → Result Text
  unfolding decode_token
  require_agent now none = err (http_error 401)
  require_agent now (some (Scheme.other, token)) = err (http_error 401)
  require_agent now (some (Scheme.bearer, token)) =
      bind_result (decode_token now token token_type_access)
        (λ claims. ok (cid_or settings.client_id claims.cid))
