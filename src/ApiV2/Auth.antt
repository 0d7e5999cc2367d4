-- ===== src/ApiV2/Auth.antt =====
-- handlerAPIv2/auth.py and handlerAPIv2/deps.py. The class JwksCache is that of handlerAPI, line by
-- line.
use job_processing_workflow.Prelude.{
  ℕ, [], ◌∷◌, ◌≡◌, refl, ◌⊎◌, String, true, Option, some, none, false, strip, after_space, is_space,
  if◌then◌else◌, arith, Bool-cases, Option-cases, inl, inr,
}
use Prim.Native.String
use mathlib.Core.Option.{get_or}
use job_processing_workflow.Api as Api
use job_processing_workflow.Api.{Result-cases}
use job_processing_workflow.Api.Keys as Keys
use job_processing_workflow.Api.Keys.{Jwk, JwksCache, Fetch, IsKeyed, get_key-key_id}
use job_processing_workflow.Api.Principal as V1
use job_processing_workflow.Api.Principal.{Claims}
use job_processing_workflow.Api.Auth as V1Auth
use job_processing_workflow.Api.Config.{Oidc}
use job_processing_workflow.Api.Auth.{DecodeOptions, Jwt, is_bearer}
use job_processing_workflow.ApiV2.{
  Principal, has_scope, to_principal, known, Result, returns, raises, lift, refused,
}
use job_processing_workflow.ApiV2.Config.{Scopes}

abbrev pub unauthorized {ℓ} : {A : Type ℓ} → String → Result A
unauthorized detail = lift (Api.unauthorized detail)

module _ {K : Type 0} where
  -- `JwksCache.get_key`
  unfoldable pub get_key :
      ℕ → (first second : Fetch K) → Option String → JwksCache K → JwksCache K × Result (Jwk K)
  get_key now first second kid cache =
      let (cache', found) = Keys.get_key now first second kid cache in (cache', lift found)

-- What `TokenVerifier.verify` of this service passes.
abbrev pub decode_options : Oidc → DecodeOptions
decode_options settings = record {
  algorithms = settings.oidc_algorithms;
  audience = settings.oidc_audience;
  issuer = settings.oidc_issuer;
  leeway = settings.clock_skew_leeway;
  require = "exp" ∷ "iss" ∷ "aud" ∷ [];
}

module _ {K : Type 0} (jwt : Jwt K) (oidc : Oidc) where
  abbrev pub decoded : String → Result (Jwk K) → Result Principal
  decoded token (raises e) = raises e
  decoded token (returns k) = elim (jwt.decode (decode_options oidc) token k.key) [
    | none ↦ unauthorized "invalid token"
    | some claims ↦ returns (to_principal claims)
  ]

  unfoldable pub verify :
      ℕ → (first second : Fetch K) → String → JwksCache K → JwksCache K × Result Principal
  verify now first second token cache = elim (jwt.unverified_kid token) [
    | none ↦ (cache, unauthorized "malformed token")
    | some kid ↦
        let (cache', found) = get_key now first second kid cache in (cache', decoded token found)
  ]

  unfoldable pub get_principal :
      ℕ → (first second : Fetch K) → Option String → JwksCache K → JwksCache K × Result Principal
  get_principal now first second authorization cache =
      let header = get_or authorization "" in
      if is_bearer header
      then verify now first second (strip (after_space header)) cache
      else (cache, unauthorized "missing bearer token")

abbrev pub requires : String → Principal → Result Principal
requires scope p =
    if has_scope scope p
    then returns p
    else refused 403 "Forbidden" (String.◌++◌ "requires scope: " scope)

unfoldable pub require_write : Scopes → Principal → Result Principal
require_write settings p = requires settings.scope_write p

unfoldable pub require_read : Scopes → Principal → Result Principal
require_read settings p = requires settings.scope_read p

-- What an accepted request carries: a bearer token, and claims that `jwt.decode` has accepted under a
-- key of the id that the token names.
pub record Carries {K : Type 0} (jwt : Jwt K) (oidc : Oidc) (authorization : Option String)
    (claims : Claims) : Type 0 where
  pub header : String
  pub kid : Option String
  pub jwk : Jwk K
  pub sent : authorization ≡ some header
  pub bearer : is_bearer header ≡ true
  pub named : jwt.unverified_kid (strip (after_space header)) ≡ some kid
  pub of_kid : jwk.key_id ≡ kid
  pub accepted : jwt.decode (decode_options oidc) (strip (after_space header)) jwk.key ≡ some claims

module _ {K : Type 0} (jwt : Jwt K) (oidc oidc_v2 : Oidc) (same : oidc_v2 ≡ oidc)
    (settings : V1.Settings) (now : ℕ) (first second : Fetch K) (cache : JwksCache K)
    (keyed : IsKeyed cache.keys) where
  -- Both services refuse the request with the same error, or both accept the same claims; both leave
  -- the same keys.
  pub record Agree (authorization : Option String) : Type 0 where
    pub same_cache :
        (get_principal jwt oidc_v2 now first second authorization cache).0
        ≡ (V1Auth.get_principal jwt oidc settings now first second authorization cache).0
    pub same_outcome :
        ((e : Api.Raised) × ((V1Auth.get_principal jwt oidc settings now first second authorization
              cache).1
            ≡ Api.raises e)
          × ((get_principal jwt oidc_v2 now first second authorization cache).1 ≡ raises (known e)))
        ⊎ ((claims : Claims) × Carries jwt oidc_v2 authorization claims
            × ((V1Auth.get_principal jwt oidc settings now first second authorization cache).1
                ≡ Api.returns (V1.to_principal settings claims))
            × ((get_principal jwt oidc_v2 now first second authorization cache).1
                ≡ returns (to_principal claims)))

-- One configuration.
module _ {K : Type 0} (jwt : Jwt K) (oidc : Oidc) (settings : V1.Settings) (now : ℕ)
    (first second : Fetch K) (cache : JwksCache K) (keyed : IsKeyed cache.keys) where
  abbrev Alike : Option String → Type 0
  Alike authorization = Agree jwt oidc oidc refl settings now first second cache keyed authorization

  named_Agree :
      (header : String) (kid : Option String)
      → is_bearer header ≡ true
      → jwt.unverified_kid (strip (after_space header)) ≡ some kid
      → Alike (some header)
  unfolding get_principal verify get_key V1Auth.get_principal V1Auth.verify
  named_Agree header kid bearer named =
      elim (Result-cases (Keys.get_key now first second kid cache).1) [
        | inl (e, refuses) ↦ record {
          same_cache = ground (arith, bearer, named);
          same_outcome =
              inl
                (e, ground (arith, bearer, named, refuses), ground (arith, bearer, named, refuses));
        }
        | inr (k, found) ↦
            elim (Option-cases
              (jwt.decode (decode_options oidc) (strip (after_space header)) k.key)) [
                | inl invalid ↦ record {
                  same_cache = ground (arith, bearer, named);
                  same_outcome = inl (
                    Api.denied "invalid token",
                    ground (arith, bearer, named, found, invalid),
                    ground (arith, bearer, named, found, invalid),
                  );
                }
                | inr (claims, accepted) ↦ record {
                  same_cache = ground (arith, bearer, named);
                  same_outcome = inr (
                    claims,
                    record {
                      header = header;
                      kid = kid;
                      jwk = k;
                      sent = refl;
                      bearer = bearer;
                      named = named;
                      of_kid = (get_key-key_id now first second kid cache k keyed found).0;
                      accepted = accepted;
                    },
                    ground (arith, bearer, named, found, accepted),
                    ground (arith, bearer, named, found, accepted),
                  );
                }
              ]
      ]

  unnamed_Agree :
      (header : String)
      → is_bearer header ≡ true
      → jwt.unverified_kid (strip (after_space header)) ≡ none
      → Alike (some header)
  unfolding get_principal verify V1Auth.get_principal V1Auth.verify
  unnamed_Agree header bearer malformed = record {
    same_cache = ground (arith, bearer, malformed);
    same_outcome = inl (
      Api.denied "malformed token",
      ground (arith, bearer, malformed),
      ground (arith, bearer, malformed),
    );
  }

  anonymous_Agree : (header : String) → is_bearer header ≡ false → Alike (some header)
  unfolding get_principal V1Auth.get_principal
  anonymous_Agree header other = record {
    same_cache = ground (arith, other);
    same_outcome =
        inl (Api.denied "missing bearer token", ground (arith, other), ground (arith, other));
  }

  no_header_Agree : Alike none
  unfolding get_principal V1Auth.get_principal is_space
  no_header_Agree = record {
    same_cache = refl;
    same_outcome = inl (Api.denied "missing bearer token", refl, refl);
  }

  alike : (authorization : Option String) → Alike authorization
  alike none = no_header_Agree
  alike (some header) = elim (Bool-cases (is_bearer header)) [
    | inr other ↦ anonymous_Agree header other
    | inl bearer ↦ elim (Option-cases (jwt.unverified_kid (strip (after_space header)))) [
      | inl malformed ↦ unnamed_Agree header bearer malformed
      | inr (kid, named) ↦ named_Agree header kid bearer named
    ]
  ]

module _ {K : Type 0} (jwt : Jwt K) (oidc oidc_v2 : Oidc) (same : oidc_v2 ≡ oidc)
    (settings : V1.Settings) (now : ℕ) (first second : Fetch K) (cache : JwksCache K)
    (keyed : IsKeyed cache.keys) where
  -- Both services are configured with the same issuer, audience, algorithms and leeway, and the cached
  -- keys are stored under their own ids; whatever the issuer answers: they refuse a request with the
  -- same error, or accept the same claims of a bearer token, which `jwt.decode` has accepted, with the
  -- options that `verify` passes, under a key of the id that the token names; and they leave the same
  -- keys.
  pub get_principal-Agree :
      (authorization : Option String)
      → Agree jwt oidc oidc_v2 same settings now first second cache keyed authorization
  get_principal-Agree authorization =
      let one = alike jwt oidc settings now first second cache keyed authorization in
      record { same_cache = rw same one.same_cache; same_outcome = rw same one.same_outcome }
