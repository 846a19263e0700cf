-- ===== src/Tests/Auth.antt =====
-- The theorems on sessions, with a signature that is the secret itself.
use reservac_ia.Base.{ℕ, ◌+◌, ◌-◌, ◌*◌, ◌≡◌, refl, some, Text, [], ◌∷◌, codes, arith}
use reservac_ia.Clock.{day, second}
use reservac_ia.Model.{Env}
use reservac_ia.Monad.{ok, err, http_error, ◌>>=◌}
use reservac_ia.Monad.Succeeds.{Succeeds}
use reservac_ia.Samples.{sample_env, sample_state}
use reservac_ia.Tests.Security.{plain_jwt, sample_auth}
use reservac_ia.Security.{
  Scheme, payload, expiry, verify_client_credentials, require_agent, verify_refresh_token,
}
use reservac_ia.Routers.Auth
use reservac_ia.Routers.Auth.{TokenResponse, pair, refresh_token, guard, dev_token}
use reservac_ia.Routers.Auth.Session.{Call, IsEntitled, perform-IsEntitled, login-refresh}

-- A reading of the clock each second.
abbrev auth_env : Env
auth_env = record sample_env { clock = λ n. 740_000 * day + n * second }

abbrev hex : ℕ → Text
hex n = (97 + n) ∷ []

abbrev later : ℕ
later = (740_000 - 719_163) * 86_400 + 60

login-refresh_example :
    Succeeds
      (Auth.issue_token plain_jwt sample_auth auth_env hex (codes "agent") (codes "password")
        >>= λ out. refresh_token plain_jwt sample_auth auth_env hex out.refresh_token)
      sample_state
      (λ out t.
        (require_agent plain_jwt sample_auth later (some (Scheme.bearer, out.access_token))
          ≡ ok (codes "agent"))
        × (verify_refresh_token plain_jwt sample_auth later out.access_token ≡ err (http_error 401))
        × (t.db ≡ sample_state.db))
unfolding payload expiry
login-refresh_example =
    login-refresh plain_jwt sample_auth auth_env hex sample_state later (omega arith, omega arith)
      (omega arith, omega arith)

perform-IsEntitled_example :
    IsEntitled plain_jwt sample_auth auth_env hex sample_state
      (Call.login (codes "agent") (codes "password"))
unfolding Auth.issue_token verify_client_credentials pair
perform-IsEntitled_example =
    perform-IsEntitled plain_jwt sample_auth auth_env hex
      (Call.login (codes "agent") (codes "password")) sample_state _ refl
