-- ===== src/App/Networks.antt =====
-- The allowlist of app/config.py and app/security.py. The module ipaddress is a parameter.
use reservac_ia.Base.{Bool, false, not, Option, none, some, List, [], ◌∷◌, any, select, Text}
use reservac_ia.Monad.{Result, ok, err, value_error, bind_result}
use reservac_ia.Http.{strip, split_on, is_blank}

-- `ip_address`, `ip_network(..., strict=False)` and `addr in net`; none is the ValueError.
pub record IpAddress : Type 1 where
  pub Address : Type 0
  pub Network : Type 0
  pub ip_address : Text → Option Address
  pub ip_network : Text → Option Network
  pub contains : Address → Network → Bool

module _ (ip : IpAddress) where
  parse_networks : List Text → Result (List ip.Network)
  parse_networks [] = ok []
  parse_networks (part ∷ parts) = elim (ip.ip_network (strip part)) [
    | none ↦ err value_error
    | some net ↦ bind_result (parse_networks parts) (λ nets. ok (net ∷ nets))
  ]

  -- `Settings.allowed_networks`
  unfoldable pub allowed_networks : Text → Result (List ip.Network)
  unfolding parse_networks split_on
  allowed_networks allowed_ips =
      parse_networks (select (λ part. not (is_blank part)) (split_on b',' allowed_ips))

  admits : List ip.Network → Option Text → Bool
  admits networks none = false
  admits networks (some host) = elim (ip.ip_address host) [
    | none ↦ false
    | some addr ↦ any (ip.contains addr) networks
  ]

  -- Whether `IPAllowlistMiddleware.dispatch` goes on to the next handler.
  unfoldable pub allows : (allowed_ips : Text) (client : Option Text) → Result Bool
  unfolding allowed_networks admits
  allows allowed_ips client =
      bind_result (allowed_networks allowed_ips) (λ networks. ok (admits networks client))
