-- ===== src/Tests/App.antt =====
-- The theorems on the chain of middlewares, with an allowlist of one address.
use reservac_ia.Base.{ℕ, suc, ◌≡◌, refl, ◌⊎◌, false, none, some, [], Text, text_eq, codes, All}
use reservac_ia.Monad.{Exn, ok, err}
use reservac_ia.Http.{Request, json_response, strip, lstrip, rstrip, split_on}
use reservac_ia.App.{
  World, Handler, ChainSettings, application, chain, row_of, add_row, security_headers,
}
use reservac_ia.App.Networks.{IpAddress, allows, allowed_networks}
use reservac_ia.App.Laws.{after, Has, outsider-forbidden, application-stamped, application-audited}

-- Addresses are texts, and a network is one address.
abbrev by_text : IpAddress
by_text = record {
  Address = Text;
  Network = Text;
  ip_address = λ s. some s;
  ip_network = λ s. some s;
  contains = text_eq;
}

abbrev sample_chain : ChainSettings
sample_chain = record {
  allowed_ips = codes "127.0.0.1, 10.0.0.7";
  limits = record {
    rate_limit_auth_per_minute = 5;
    rate_limit_other_per_minute = 30;
    rate_limit_data_per_minute = 60;
  };
  max_body_bytes = 65_536;
  decode_unverified = λ token. none;
  fingerprint = λ s. s;
}

-- Routes that count what reaches them.
abbrev counting : Handler ℕ
counting request w = (ok (json_response 200), record w { app = suc w.app })

abbrev fresh : World ℕ
fresh = record { store = []; audit = []; app = 0 }

abbrev from : Text → Request
from host = record {
  path = codes "/reservations";
  method = codes "POST";
  client = some host;
  authorization = [];
  user_agent = codes "curl";
  content_length = some (codes "120");
  monotonic = 7;
  utc = 9;
}

stranger_not_permitted : allows by_text sample_chain.allowed_ips (some (codes "8.8.8.8")) ≡ ok false
unfolding allows allowed_networks strip lstrip rstrip split_on
stranger_not_permitted = refl

outsider-forbidden_example :
    ((application sample_chain by_text counting (from (codes "8.8.8.8")) fresh).0.status ≡ 403)
    × ((after sample_chain by_text counting (from (codes "8.8.8.8")) fresh).app ≡ 0)
    × ((after sample_chain by_text counting (from (codes "8.8.8.8")) fresh).store ≡ [])
outsider-forbidden_example =
    outsider-forbidden sample_chain by_text counting (from (codes "8.8.8.8")) fresh
      stranger_not_permitted

application-stamped_example :
    ((e : Exn) × ((chain sample_chain by_text counting (from (codes "8.8.8.8")) fresh).0 ≡ err e))
    ⊎ All
        (λ h. Has h.0 (application sample_chain by_text counting (from (codes "8.8.8.8")) fresh).0)
        security_headers
application-stamped_example =
    application-stamped sample_chain by_text counting (from (codes "8.8.8.8")) fresh

application-audited_example :
    (after sample_chain by_text counting (from (codes "8.8.8.8")) fresh).audit
    ≡ add_row
        (row_of sample_chain
          (from (codes "8.8.8.8"))
          (chain sample_chain by_text counting (from (codes "8.8.8.8")) fresh).0)
        []
application-audited_example =
    application-audited sample_chain by_text counting (from (codes "8.8.8.8")) fresh (λ u. refl)
