-- ===== src/Routers/Auth/Session.antt =====
-- A session of the agent: login, refresh and use.
use reservac_ia.Base.{
  ℕ, suc, ◌*◌, ◌≤◌, ◌<◌, ◌≡◌, refl, ap, ◌∙◌, true, ◌&&◌, Option, none, some, Bool-cases, ◌⊎◌, inl,
  inr, Text, codes, text_eq, text_eq→eq, text_eq_refl, arith,
}
use reservac_ia.Model.{Env}
use reservac_ia.Monad.{State, ok, err, Result, Action, lift, http_error, ◌>>=◌}
use reservac_ia.Monad.Succeeds.{Succeeds, bind-Succeeds, same-Succeeds, weaken-Succeeds}
use reservac_ia.Security.{
  Claims, Decoded, Jwt, AuthSettings, Scheme, token_type_access, token_type_refresh, payload, unix,
  decode_token, checked, issue_token, verify_client_credentials, create_access_token,
  create_refresh_token, verify_refresh_token, require_agent,
}
use reservac_ia.Security.Laws.{IsOurs, checked-IsOurs, check_claims-payload, access_token-lem}
use reservac_ia.Routers.Auth
use reservac_ia.Routers.Auth.{TokenResponse, is_loopback, pair, refresh_token, guard, dev_token}

-- From its iat until its exp.
abbrev pub IsAlive : Claims → ℕ → Type 0
IsAlive c at = (c.iat ≤ at) × (at < c.exp)

module _ {Token : Type 0} (jwt : Jwt Token) (settings : AuthSettings) (env : Env)
    (token_hex : ℕ → Text) where
  -- The claims of the two tokens of a pair that is issued in a state.
  abbrev pub access_claims : State → Claims
  access_claims s =
      payload settings (settings.jwt_ttl_minutes * 60) token_type_access (token_hex s.draws)
        (env.clock s.reads)

  abbrev pub refresh_claims : State → Claims
  refresh_claims s =
      payload settings (settings.refresh_ttl_days * 86_400) token_type_refresh
        (token_hex (suc s.draws)) (env.clock (suc s.reads))

  -- The state after a pair.
  abbrev pub after_pair : State → State
  after_pair s = record s { reads = suc (suc s.reads); draws = suc (suc s.draws) }

  abbrev IsPair : State → TokenResponse Token → State → Type 0
  IsPair s out t =
      (out.access_token ≡ jwt.encode settings.jwt_secret (access_claims s))
      × (out.refresh_token ≡ jwt.encode settings.jwt_secret (refresh_claims s))
      × (t ≡ after_pair s)

  pair-Succeeds : (s : State) → Succeeds (pair jwt settings env token_hex) s (IsPair s)
  unfolding pair create_access_token create_refresh_token issue_token
  pair-Succeeds s = record { answer = _; run = refl; post = (refl, refl, refl) }

  -- A login with the credentials of the settings.
  login-Succeeds :
      (s : State)
      → Succeeds
          (Auth.issue_token jwt settings env token_hex settings.client_id settings.client_secret)
          s
          (IsPair s)
  unfolding Auth.issue_token verify_client_credentials
  login-Succeeds s =
      same-Succeeds _ (pair jwt settings env token_hex) s (IsPair s)
        (rw (text_eq_refl settings.client_id, text_eq_refl settings.client_secret) refl)
        (pair-Succeeds s)

  -- A refresh with a token of the program that is alive.
  refresh-Succeeds :
      (s : State) (c : Claims)
      → checked settings token_type_refresh (
          jwt.decode
            (unix (env.clock s.reads))
            settings.jwt_secret
            (jwt.encode settings.jwt_secret c))
        ≡ ok c
      → Succeeds
          (refresh_token jwt settings env token_hex (jwt.encode settings.jwt_secret c))
          s
          (IsPair (record s { reads = suc s.reads }))
  unfolding refresh_token verify_refresh_token decode_token
  refresh-Succeeds s c h =
      let t : State = record s { reads = suc s.reads } in
      same-Succeeds _ (λ _. pair jwt settings env token_hex t) s (IsPair t) (rw h refl)
        (let p = pair-Succeeds t in record { answer = p.answer; run = p.run; post = p.post })

  -- Where the refresh token of a login with the credentials of the settings is alive at the next
  -- reading of the clock, refreshing with it returns a pair of tokens, and leaves the database as
  -- it was; while its access token is alive it lets its bearer in as the client of the settings,
  -- and is refused with 401 as a refresh token.
  pub login-refresh :
      (s : State) (at : ℕ)
      → IsAlive (refresh_claims s) (unix (env.clock (after_pair s).reads))
      → IsAlive (access_claims (record (after_pair s) { reads = suc (after_pair s).reads })) at
      → Succeeds
          (Auth.issue_token jwt settings env token_hex settings.client_id settings.client_secret
            >>= λ out. refresh_token jwt settings env token_hex out.refresh_token)
          s
          (λ out t.
            (require_agent jwt settings at (some (Scheme.bearer, out.access_token))
              ≡ ok settings.client_id)
            × (verify_refresh_token jwt settings at out.access_token ≡ err (http_error 401))
            × (t.db ≡ s.db))
  unfolding checked create_access_token issue_token
  login-refresh s at renews lives = bind-Succeeds _ _ s (IsPair s) _ (login-Succeeds s) λ out t h.
      let read =
        jwt.decode_encode (unix (env.clock (after_pair s).reads)) settings.jwt_secret
          (refresh_claims s) renews.0 renews.1 in
      let good =
        ap (checked settings token_type_refresh) read
        ∙ check_claims-payload settings (settings.refresh_ttl_days * 86_400) token_type_refresh
            (token_hex (suc s.draws)) (env.clock (suc s.reads)) in
      let u : State = record (after_pair s) { reads = suc (after_pair s).reads } in
      let lives_in =
        access_token-lem jwt settings (token_hex u.draws) (env.clock u.reads) at lives.0 lives.1 in
      rw (h.1, h.2)
        (weaken-Succeeds _ (after_pair s) (IsPair u) _
          (refresh-Succeeds (after_pair s) (refresh_claims s) good)
          (λ o v k. (
            ap (λ x. require_agent jwt settings at (some (Scheme.bearer, x))) k.0 ∙ lives_in.0,
            ap (verify_refresh_token jwt settings at) k.0 ∙ lives_in.1,
            ap (λ x. x.db) k.2,
          )))

  -- The three ways to a pair of tokens, and what each has to show.
  pub data Call : Type 0 where
    login : (client_id client_secret : Text) → Call
    renew : Token → Call
    local : (client : Option Text) → Call

  abbrev pub perform : Call → Action (TokenResponse Token)
  perform (Call.login client_id client_secret) =
      Auth.issue_token jwt settings env token_hex client_id client_secret
  perform (Call.renew token) = refresh_token jwt settings env token_hex token
  perform (Call.local client) = dev_token jwt settings env token_hex client

  abbrev pub IsEntitled : State → Call → Type 0
  IsEntitled s (Call.login client_id client_secret) =
      (client_id ≡ settings.client_id) × (client_secret ≡ settings.client_secret)
  IsEntitled s (Call.renew token) =
      (c : Claims) × (jwt.decode (unix (env.clock s.reads)) settings.jwt_secret token
        ≡ Decoded.valid c)
      × IsOurs settings token_type_refresh c
  IsEntitled s (Call.local client) =
      (settings.local_mode ≡ true)
      × ((client ≡ some (codes "127.0.0.1")) ⊎ (client ≡ some (codes "::1")))

  is_loopback-one :
      (client : Option Text)
      → is_loopback client ≡ true
      → (client ≡ some (codes "127.0.0.1")) ⊎ (client ≡ some (codes "::1"))
  is_loopback-one none h = absurd (ground arith)
  is_loopback-one (some host) h = elim (Bool-cases (text_eq host (codes "127.0.0.1"))) [
    | inl e ↦ inl (ap some (text_eq→eq host (codes "127.0.0.1") e))
    | inr e ↦ inr (ap some (text_eq→eq host (codes "::1") (ground arith)))
  ]

  renewed :
      (s : State) (token : Token) (r : Result Claims) (out : TokenResponse Token)
      → verify_refresh_token jwt settings (unix (env.clock s.reads)) token ≡ r
      → ((lift r >>= λ _. pair jwt settings env token_hex) (record s { reads = suc s.reads })).0
        ≡ ok out
      → IsEntitled s (Call.renew token)
  unfolding verify_refresh_token decode_token
  renewed s token (err e) out h k = absurd (cc)
  renewed s token (ok c) out h k =
      let (found, ours) =
        checked-IsOurs settings token_type_refresh
          (jwt.decode (unix (env.clock s.reads)) settings.jwt_secret token) c h in
      (c, found, ours)

  -- A pair of tokens is only returned to a login with the credentials of the settings, to a
  -- refresh with a token that the decoder accepts under the secret of the settings and whose
  -- claims are of a refresh token of its client id, and, with local_mode on, to a client at
  -- 127.0.0.1 or ::1.
  pub perform-IsEntitled :
      (call : Call) (s : State) (out : TokenResponse Token)
      → (perform call s).0 ≡ ok out
      → IsEntitled s call
  unfolding Auth.issue_token refresh_token dev_token guard verify_client_credentials
  perform-IsEntitled (Call.login client_id client_secret) s out h =
      let both : (text_eq client_id settings.client_id
            && text_eq client_secret settings.client_secret)
          ≡ true =
        ground arith in
      (
        text_eq→eq client_id settings.client_id (ground arith),
        text_eq→eq client_secret settings.client_secret (ground arith),
      )
  perform-IsEntitled (Call.renew token) s out h =
      renewed s token (verify_refresh_token jwt settings (unix (env.clock s.reads)) token) out refl
        h
  perform-IsEntitled (Call.local client) s out h =
      let mode : settings.local_mode ≡ true = ground arith in
      (mode, is_loopback-one client (ground arith))
