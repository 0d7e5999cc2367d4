-- ===== src/Api/Auth.antt =====
-- handlerAPI/auth.py, class TokenVerifier, and the dependencies of handlerAPI/deps.py.
use job_processing_workflow.Prelude.{
  ℕ, List, [], ◌∷◌, ◌≡◌, refl, sym, ◌∙◌, String, Bool, true, false, not, ◌||◌, ◌&&◌, Option, some,
  none, strip, is_space, before_space, after_space, lower_is, ◌==◌, if◌then◌else◌, arith,
  Bool-cases, Option-cases, inl, inr,
}
use Prim.Native.String
use mathlib.Core.Option.{get_or}
use job_processing_workflow.Api.{Result, returns, raises, unauthorized, refused}
use job_processing_workflow.Api.Keys.{Jwk, JwksCache, Fetch, get_key, IsKeyed, get_key-key_id}
use job_processing_workflow.Models.{ℤ}
use job_processing_workflow.Api.Config.{Oidc}
use job_processing_workflow.Api.Principal.{
  Principal, Claims, Settings, to_principal, has_scope, is_service,
}

-- The named arguments of `jwt.decode`; `require` are the claims that a token must have.
pub record DecodeOptions : Type 0 where
  pub algorithms : List String
  pub audience : String
  pub issuer : String
  pub leeway : ℤ
  pub require : List String

-- The library `jwt`. `unverified_kid` is the `kid` of a token's header, or nothing if the token is
-- malformed; `decode` gives the claims of a token that the key has signed and that passes what
-- the options ask for, and nothing otherwise.
pub record Jwt (K : Type 0) : Type 0 where
  pub unverified_kid : String → Option (Option String)
  pub decode : DecodeOptions → String → K → Option Claims

-- `if scheme.lower() != "bearer" or not token.strip()`
abbrev pub is_bearer : String → Bool
is_bearer header = lower_is (before_space header) "bearer" && not (strip (after_space header) == "")

-- What `TokenVerifier.verify` passes.
abbrev pub decode_options : Oidc → DecodeOptions
decode_options settings = record {
  algorithms = settings.oidc_algorithms;
  audience = settings.oidc_audience;
  issuer = settings.oidc_issuer;
  leeway = settings.clock_skew_leeway;
  require = "exp" ∷ "iss" ∷ "aud" ∷ [];
}

module _ {K : Type 0} (jwt : Jwt K) (oidc : Oidc) (settings : Settings) where
  abbrev pub decoded : String → Result (Jwk K) → Result Principal
  decoded token (raises e) = raises e
  decoded token (returns k) = elim (jwt.decode (decode_options oidc) token k.key) [
    | none ↦ unauthorized "invalid token"
    | some claims ↦ returns (to_principal settings claims)
  ]

  -- `now` and the two answers of the issuer are those of `get_key`.
  unfoldable pub verify :
      ℕ → (first second : Fetch K) → String → JwksCache K → JwksCache K × Result Principal
  verify now first second token cache = elim (jwt.unverified_kid token) [
    | none ↦ (cache, unauthorized "malformed token")
    | some kid ↦
        let (cache', found) = get_key now first second kid cache in (cache', decoded token found)
  ]

  -- The header `Authorization` of the request, if it has one.
  unfoldable pub get_principal :
      ℕ → (first second : Fetch K) → Option String → JwksCache K → JwksCache K × Result Principal
  get_principal now first second authorization cache =
      let header = get_or authorization "" in
      if is_bearer header
      then verify now first second (strip (after_space header)) cache
      else (cache, unauthorized "missing bearer token")

abbrev pub requires : String → Principal → Result Principal
requires scope p =
    if has_scope scope p
    then returns p
    else refused 403 "Forbidden" (String.◌++◌ "requires scope: " scope)

unfoldable pub require_write : Settings → Principal → Result Principal
require_write settings p = requires settings.scope_write p

unfoldable pub require_read : Settings → Principal → Result Principal
require_read settings p = requires settings.scope_read p

abbrev is_subject : Option String → Principal → Bool
is_subject none p = false
is_subject (some sub) p = sub == p.subject

unfoldable pub can_read_job_created_by : Principal → Settings → Option String → Bool
can_read_job_created_by p settings creator_sub =
    if is_service p || has_scope settings.scope_read_all p then true else is_subject creator_sub p

-- What a principal rests on: a bearer token, and claims that `jwt.decode` has accepted under a key
-- of the id that the token names.
pub record IsAuthentic {K : Type 0} (jwt : Jwt K) (oidc : Oidc) (settings : Settings)
    (authorization : Option String) (p : Principal) : Type 0 where
  pub header : String
  pub kid : Option String
  pub jwk : Jwk K
  pub claims : Claims
  pub sent : authorization ≡ some header
  pub bearer : is_bearer header ≡ true
  pub named : jwt.unverified_kid (strip (after_space header)) ≡ some kid
  pub of_kid : jwk.key_id ≡ kid
  pub accepted : jwt.decode (decode_options oidc) (strip (after_space header)) jwk.key ≡ some claims
  pub made : p ≡ to_principal settings claims

decoded-returns :
    {K : Type 0} (jwt : Jwt K) (oidc : Oidc) (settings : Settings) (token : String)
    (r : Result (Jwk K)) (p : Principal)
    → decoded jwt oidc settings token r ≡ returns p
    → (jwk : Jwk K) × (claims : Claims) × (r ≡ returns jwk)
      × (jwt.decode (decode_options oidc) token jwk.key ≡ some claims)
      × (p ≡ to_principal settings claims)
decoded-returns jwt oidc settings token (raises err) p e = cc
decoded-returns jwt oidc settings token (returns k) p e =
    elim (Option-cases (jwt.decode (decode_options oidc) token k.key)) [
      | inl invalid ↦ absurd (ground (arith, invalid, e))
      | inr (claims, ok) ↦ (k, claims, refl, ok, ground (arith, ok, e))
    ]

module _ {K : Type 0} (jwt : Jwt K) (oidc : Oidc) (settings : Settings) (now : ℕ)
    (first second : Fetch K) (cache : JwksCache K) (keyed : IsKeyed cache.keys) where
  no_header :
      (p : Principal)
      → (get_principal jwt oidc settings now first second none cache).1 ≡ returns p
      → ⊥
  unfolding get_principal is_space
  no_header p e = cc

  no_bearer :
      (header : String) (p : Principal)
      → is_bearer header ≡ false
      → (get_principal jwt oidc settings now first second (some header) cache).1 ≡ returns p
      → ⊥
  unfolding get_principal
  no_bearer header p other e = ground (arith, other, e)

  no_kid :
      (header : String) (p : Principal)
      → is_bearer header ≡ true
      → jwt.unverified_kid (strip (after_space header)) ≡ none
      → (get_principal jwt oidc settings now first second (some header) cache).1 ≡ returns p
      → ⊥
  unfolding get_principal verify
  no_kid header p bearer malformed e = ground (arith, bearer, malformed, e)

  result :
      (header : String) (kid : Option String)
      → is_bearer header ≡ true
      → jwt.unverified_kid (strip (after_space header)) ≡ some kid
      → (get_principal jwt oidc settings now first second (some header) cache).1
        ≡ decoded jwt oidc settings
            (strip (after_space header))
            (get_key now first second kid cache).1
  unfolding get_principal verify
  result header kid bearer named = ground (arith, bearer, named)

  -- A request has a principal only by a bearer token whose claims `jwt.decode` has accepted under a
  -- key of the id that the token names; the principal is that of these claims.
  pub get_principal-IsAuthentic :
      (authorization : Option String) (p : Principal)
      → (get_principal jwt oidc settings now first second authorization cache).1 ≡ returns p
      → IsAuthentic jwt oidc settings authorization p
  get_principal-IsAuthentic none p e = absurd (no_header p e)
  get_principal-IsAuthentic (some header) p e =
      let token = strip (after_space header) in
      elim (Bool-cases (is_bearer header)) [
        | inr other ↦ absurd (no_bearer header p other e)
        | inl bearer ↦ elim (Option-cases (jwt.unverified_kid token)) [
          | inl malformed ↦ absurd (no_kid header p bearer malformed e)
          | inr (kid, named) ↦
              let (jwk, claims, found, ok, made) =
                decoded-returns jwt oidc settings token (get_key now first second kid cache).1 p
                  (sym (result header kid bearer named) ∙ e) in
              record {
                header = header;
                kid = kid;
                jwk = jwk;
                claims = claims;
                sent = refl;
                bearer = bearer;
                named = named;
                of_kid = (get_key-key_id now first second kid cache jwk keyed found).0;
                accepted = ok;
                made = made;
              }
        ]
      ]
