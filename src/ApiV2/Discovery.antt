-- ===== src/ApiV2/Discovery.antt =====
-- handlerAPIv2/auth.py, `build_verifier`: where the keys of the issuer are found, and the scopes of a
-- token. The two helpers of the module are those of handlerAPI, line by line.
use job_processing_workflow.Prelude.{
  ℕ, ◌≡◌, String, Option, some, none, List, [], arith, Option-cases, inl, inr,
}
use mathlib.Core.Option
use job_processing_workflow.Api.Keys.{JwksCache}
use job_processing_workflow.Api.Principal as V1
use job_processing_workflow.Api.Principal.{Claims}
use job_processing_workflow.Api.Config as V1Config
use job_processing_workflow.Api.Discovery as V1Discovery
use job_processing_workflow.Api.Discovery.{HttpGet, jwks_url}
use job_processing_workflow.ApiV2.Config.{Settings}

-- `_discover_jwks_url`; nothing where it raises.
abbrev pub discover_jwks_url : HttpGet → String → Option String
discover_jwks_url get oidc_issuer = V1Discovery.discover_jwks_url get oidc_issuer

-- `_extract_scopes`
abbrev pub extract_scopes : Claims → List String
extract_scopes claims = V1.extract_scopes claims

-- The verifier that is built: its settings, and its cache with the address that the cache asks.
pub record Verifier (F K : Type 0) : Type 0 where
  pub settings : Settings F
  pub address : String
  pub cache : JwksCache K

-- `micros` is the number of microseconds of a float, which is a number of seconds.
module _ {F K : Type 0} (micros : F → ℕ) where
  abbrev verifier_at : Settings F → Option String → Option (Verifier F K)
  verifier_at settings none = none
  verifier_at settings (some url) = some (record {
    settings = settings;
    address = url;
    cache = record { ttl = micros settings.jwks_cache_ttl; keys = []; fetched_at = 0 };
  })

  unfoldable pub build_verifier : HttpGet → Settings F → Option (Verifier F K)
  build_verifier get settings =
      verifier_at settings (jwks_url get settings.oidc_jwks_url settings.oidc_issuer)

  -- Of the same issuer, handlerAPI and handlerAPIv2 ask for keys at the same address, and keep them
  -- for the same time; or neither can be started.
  pub build_verifier-build_verifier :
      (get : HttpGet) (a : V1Config.Settings F) (b : Settings F)
      → a.oidc_jwks_url ≡ b.oidc_jwks_url
      → a.oidc_issuer ≡ b.oidc_issuer
      → a.jwks_cache_ttl ≡ b.jwks_cache_ttl
      → Option.map {B = String × JwksCache K}
          (λ (v : V1Discovery.Verifier F K). (v.address, v.cache))
          (V1Discovery.build_verifier micros get a)
        ≡ Option.map {B = String × JwksCache K}
            (λ (v : Verifier F K). (v.address, v.cache))
            (build_verifier get b)
  unfolding build_verifier V1Discovery.build_verifier
  build_verifier-build_verifier get a b url issuer ttl =
      elim (Option-cases (jwks_url get b.oidc_jwks_url b.oidc_issuer)) [
        | inl missing ↦ ground (arith, url, issuer, ttl, missing)
        | inr (address, there) ↦ ground (arith, url, issuer, ttl, there)
      ]
