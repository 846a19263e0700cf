-- ===== src/Routers/Auth.antt =====
-- app/routers/auth.py and app/routers/debug.py: login, refresh and the pair of tokens for local work.
pub mod Session
use reservac_ia.Base.{
  ℕ, suc, Bool, true, false, not, ◌||◌, Option, none, some, Text, codes, text_eq,
}
use reservac_ia.Model.{Env}
use reservac_ia.Monad.{State, Action, ok, pure, lift, raise_if, http_error, now, ◌>>=◌, ◌>>◌}
use reservac_ia.Security.{
  Jwt, AuthSettings, Issued, token_type_access, unix, verify_client_credentials,
  create_access_token, create_refresh_token, verify_refresh_token,
}

pub record TokenResponse (Token : Type 0) : Type 0 where
  pub access_token : Token
  pub token_type : Text
  pub expires_in : ℕ
  pub expires_at : Text
  pub refresh_token : Token
  pub refresh_expires_in : ℕ
  pub refresh_expires_at : Text

-- `host not in _LOOPBACK`
abbrev pub is_loopback : Option Text → Bool
is_loopback none = false
is_loopback (some host) = text_eq host (codes "127.0.0.1") || text_eq host (codes "::1")

-- One `secrets.token_hex(8)`.
abbrev pub draw_hex : (ℕ → Text) → Action Text
draw_hex token_hex s = (ok (token_hex s.draws), record s { draws = suc s.draws })

module _ {Token : Type 0} (jwt : Jwt Token) (settings : AuthSettings) (env : Env)
    (token_hex : ℕ → Text) where
  abbrev pub response : Issued Token → Issued Token → TokenResponse Token
  response access refresh = record {
    access_token = access.token;
    token_type = codes "bearer";
    expires_in = access.expires_in;
    expires_at = env.strftime settings.datetime_format access.expires_at.wall;
    refresh_token = refresh.token;
    refresh_expires_in = refresh.expires_in;
    refresh_expires_at = env.strftime settings.datetime_format refresh.expires_at.wall;
  }

  -- `_pair`; each token reads the clock and draws its `jti`.
  unfoldable pub pair : Action (TokenResponse Token)
  pair = do
    access_now ← now env
    access_jti ← draw_hex token_hex
    refresh_now ← now env
    refresh_jti ← draw_hex token_hex
    pure (
        response (create_access_token jwt settings access_jti access_now)
          (create_refresh_token jwt settings refresh_jti refresh_now))

  unfoldable pub issue_token : (client_id client_secret : Text) → Action (TokenResponse Token)
  unfolding pair
  issue_token client_id client_secret = do
    raise_if (not (verify_client_credentials client_id client_secret settings)) (http_error 401)
    pair

  unfoldable pub refresh_token : Token → Action (TokenResponse Token)
  unfolding pair
  refresh_token token = do
    u ← now env
    claims ← lift (verify_refresh_token jwt settings (unix u) token)
    pair

  -- `_guard`
  unfoldable pub guard : (client : Option Text) → Action (Unit {0})
  guard client = do
    raise_if (not settings.local_mode) (http_error 404)
    raise_if (not (is_loopback client)) (http_error 403)

  unfoldable pub dev_token : (client : Option Text) → Action (TokenResponse Token)
  unfolding guard pair
  dev_token client = do guard client; pair
