-- ===== src/Api/Discovery.antt =====
-- handlerAPI/auth.py, `build_verifier`: where the keys of the issuer are found.
use job_processing_workflow.Prelude.{
  ℕ, ◌≡◌, refl, String, Bool, true, Option, some, none, [], ◌&&◌, nat_eq, ◌==◌, if◌then◌else◌, zero,
  suc,
}
use Prim.Native.Char.{code}
use Prim.Native.String
use text.Mathlib.TextLemmas.{cons-append, nil-append}
use job_processing_workflow.Api.Keys.{JwksCache}
use job_processing_workflow.Api.Config.{Settings}

abbrev only_slashes : String → Bool
only_slashes String.[] = true
only_slashes (String.◌∷◌ c s) = nat_eq (code c) b'/' && only_slashes s

-- `s.rstrip("/")`
abbrev pub rstrip_slashes : String → String
rstrip_slashes String.[] = String.[]
rstrip_slashes (String.◌∷◌ c s) =
    if nat_eq (code c) b'/' && only_slashes s then String.[] else String.◌∷◌ c (rstrip_slashes s)

-- What a GET of the discovery document comes to: nothing if it raises, else the text under
-- `jwks_uri`, if there is one.
abbrev pub HttpGet : Type 0
HttpGet = String → Option (Option String)

abbrev pub well_known : String → String
well_known oidc_issuer =
    String.◌++◌ (rstrip_slashes oidc_issuer) "/.well-known/openid-configuration"

abbrev uri_of : Option (Option String) → Option String
uri_of none = none
uri_of (some none) = none
uri_of (some (some jwks_uri)) = if jwks_uri == "" then none else some jwks_uri

-- `_discover_jwks_url`; nothing where it raises.
unfoldable pub discover_jwks_url : HttpGet → String → Option String
discover_jwks_url get oidc_issuer = uri_of (get (well_known oidc_issuer))

-- `settings.oidc_jwks_url or _discover_jwks_url(settings, http_get)`
unfoldable pub jwks_url : HttpGet → (oidc_jwks_url oidc_issuer : String) → Option String
jwks_url get oidc_jwks_url oidc_issuer =
    if oidc_jwks_url == "" then discover_jwks_url get oidc_issuer else some oidc_jwks_url

-- The verifier that is built: its settings, and its cache with the address that the cache asks.
pub record Verifier (F K : Type 0) : Type 0 where
  pub settings : Settings F
  pub address : String
  pub cache : JwksCache K

-- `micros` is the number of microseconds of a float, which is a number of seconds.
module _ {F K : Type 0} (micros : F → ℕ) where
  abbrev verifier_at : Settings F → Option String → Option (Verifier F K)
  verifier_at settings none = none
  verifier_at settings (some url) = some (record {
    settings = settings;
    address = url;
    cache = record { ttl = micros settings.jwks_cache_ttl; keys = []; fetched_at = 0 };
  })

  unfoldable pub build_verifier : HttpGet → Settings F → Option (Verifier F K)
  build_verifier get settings =
      verifier_at settings (jwks_url get settings.oidc_jwks_url settings.oidc_issuer)

-- A text with slashes appended is stripped to the same.
abbrev pub slashes : ℕ → String
slashes zero = ""
slashes (suc n) = String.◌∷◌ "/" (slashes n)

only_slashes_lem : (n : ℕ) → only_slashes (slashes n) ≡ true
only_slashes_lem zero = refl
only_slashes_lem (suc n) = only_slashes_lem n

rstrip_slashes_lem : (n : ℕ) → rstrip_slashes (slashes n) ≡ ""
rstrip_slashes_lem zero = refl
rstrip_slashes_lem (suc n) = rw (only_slashes_lem n) refl

only_slashes-append :
    (s : String) (n : ℕ) → only_slashes (String.◌++◌ s (slashes n)) ≡ only_slashes s
only_slashes-append String.[] n = rw nil-append (only_slashes_lem n)
only_slashes-append (String.◌∷◌ c s) n = rw (cons-append, only_slashes-append s n) refl

rstrip_slashes-append :
    (s : String) (n : ℕ) → rstrip_slashes (String.◌++◌ s (slashes n)) ≡ rstrip_slashes s
rstrip_slashes-append String.[] n = rw nil-append (rstrip_slashes_lem n)
rstrip_slashes-append (String.◌∷◌ c s) n =
    rw (cons-append, only_slashes-append s n, rstrip_slashes-append s n) refl

-- Slashes at the end of the issuer do not matter for where the keys are asked for.
pub jwks_url-slashes :
    (get : HttpGet) (oidc_jwks_url oidc_issuer : String) (n : ℕ)
    → jwks_url get oidc_jwks_url (String.◌++◌ oidc_issuer (slashes n))
      ≡ jwks_url get oidc_jwks_url oidc_issuer
unfolding jwks_url discover_jwks_url
jwks_url-slashes get oidc_jwks_url oidc_issuer n = rw (rstrip_slashes-append oidc_issuer n) refl
