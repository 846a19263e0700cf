-- ===== src/Tests/Security.antt =====
-- The theorems on tokens, with a signature that is the secret itself.
use reservac_ia.Base.{
  ℕ, ◌*◌, ◌+◌, ◌-◌, ◌≤◌, ◌<◌, ◌≡◌, refl, Option, some, true, Text, text_eq, text_eq_refl, leb, ltb,
  if◌then◌else◌, arith, codes,
}
use reservac_ia.Clock.{day}
use reservac_ia.Monad.{ok, err, http_error}
use reservac_ia.Samples.{sample_zone}
use reservac_ia.Security.{
  Claims, Decoded, Jwt, AuthSettings, Scheme, payload, expiry, token_type_access, require_agent,
  verify_refresh_token, create_access_token, issue_token, checked, check_claims, decode_token,
}
use reservac_ia.Security.Laws.{IsOurs, require_agent-IsOurs, access_token-lem}

unfoldable pub plain_decode : ℕ → Text → Text × Claims → Decoded
plain_decode now secret (signature, c) =
    if text_eq signature secret
    then (if leb c.iat now
        then (if ltb now c.exp then Decoded.valid c else Decoded.expired)
        else Decoded.invalid)
    else Decoded.invalid

pub plain_decode-encode :
    (now : ℕ) (secret : Text) (c : Claims)
    → c.iat ≤ now
    → now < c.exp
    → plain_decode now secret (secret, c) ≡ Decoded.valid c
unfolding plain_decode
plain_decode-encode now secret c from until = rw (text_eq_refl secret) (ground arith)

abbrev pub plain_jwt : Jwt (Text × Claims)
plain_jwt = record {
  encode = λ secret c. (secret, c);
  decode = plain_decode;
  decode_encode = plain_decode-encode;
}

abbrev pub sample_auth : AuthSettings
sample_auth = record {
  zone = sample_zone;
  jwt_secret = codes "secret";
  jwt_ttl_minutes = 30;
  refresh_ttl_days = 30;
  client_id = codes "agent";
  client_secret = codes "password";
  datetime_format = codes "%d/%m/%Y %H:%M";
  local_mode = true;
}

abbrev issued_at : ℕ
issued_at = 740_000 * day

abbrev sample_token : Text × Claims
sample_token = (create_access_token plain_jwt sample_auth (codes "ab") issued_at).token

abbrev moment : ℕ
moment = (740_000 - 719_163) * 86_400 + 60

access_token-lem_example :
    (require_agent plain_jwt sample_auth moment (some (Scheme.bearer, sample_token))
      ≡ ok (codes "agent"))
    × (verify_refresh_token plain_jwt sample_auth moment sample_token ≡ err (http_error 401))
unfolding payload expiry
access_token-lem_example =
    access_token-lem plain_jwt sample_auth (codes "ab") issued_at moment (omega arith) (omega arith)

-- A minute after its issue the token lets its bearer in.
let_in :
    require_agent plain_jwt sample_auth moment (some (Scheme.bearer, sample_token))
    ≡ ok (codes "agent")
unfolding require_agent decode_token checked check_claims plain_decode create_access_token
    issue_token payload expiry
let_in = refl

require_agent-IsOurs_example :
    (token : Text × Claims) × (c : Claims) × ((◌≡◌ {A = Option (Scheme × (Text × Claims))})
      (some (Scheme.bearer, sample_token))
      (some (Scheme.bearer, token)))
    × (plain_decode moment (codes "secret") token ≡ Decoded.valid c)
    × IsOurs sample_auth token_type_access c
    × (codes "agent" ≡ codes "agent")
require_agent-IsOurs_example =
    require_agent-IsOurs plain_jwt sample_auth moment (some (Scheme.bearer, sample_token))
      (codes "agent") let_in
