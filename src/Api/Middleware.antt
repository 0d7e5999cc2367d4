-- ===== src/Api/Middleware.antt =====
-- handlerAPI/middleware.py: the headers that are added to the start of every response.
use job_processing_workflow.Prelude.{
  ℕ, ◌+◌, ◌≡◌, refl, String, Bool, false, Option, some, none, List, [], ◌∷◌, ◌++◌, text_key,
  lower_is, if◌then◌else◌, any, arith,
}

-- Texts stand for the bytes of the source.
abbrev pub Headers : Type 0
Headers = List (String × String)

abbrev pub security_headers : Headers
security_headers =
    ("x-content-type-options", "nosniff")
    ∷ ("x-frame-options", "DENY")
    ∷ ("referrer-policy", "no-referrer")
    ∷ ("content-security-policy", "default-src 'none'; frame-ancestors 'none'")
    ∷ ("strict-transport-security", "max-age=63072000; includeSubDomains")
    ∷ []

-- `key in {k.lower() for k, _ in raw}`, for a key in lower case.
abbrev pub has_header : String → Headers → Bool
has_header key raw = any (λ h. lower_is h.0 key) raw

-- The loop: what is appended to a response that has these headers.
abbrev pub missing_from : Headers → Headers → Headers
missing_from raw [] = []
missing_from raw (h ∷ hs) =
    let rest = missing_from raw hs in if has_header h.0 raw then rest else h ∷ rest

-- `dict(scope.get("headers") or [])`: the last of equal keys counts.
abbrev pub last_value : String → Headers → Option String
last_value key [] = none
last_value key ((k, v) ∷ hs) = elim (last_value key hs) [
  | none ↦ if text_key.same k key then some v else none
  | some w ↦ some w
]

-- `fresh` is the id that `uuid4` gives.
abbrev pub request_id : String → Headers → String
request_id fresh sent = elim (last_value "x-request-id" sent) [ none ↦ fresh | some v ↦ v ]

-- The part of `send_wrapper` for the start of a response: `sent` are the headers of the request,
-- `raw` those of the response.
unfoldable pub secured : String → Headers → Headers → Headers
secured fresh sent raw =
    (raw ++ missing_from raw security_headers) ++ ("x-request-id", request_id fresh sent) ∷ []

-- How often a header is given.
abbrev pub times : String → Headers → ℕ
times key [] = 0
times key (h ∷ hs) = (if lower_is h.0 key then 1 else 0) + times key hs

times-append : (key : String) (a b : Headers) → times key (a ++ b) ≡ times key a + times key b
times-append key [] b = ground arith
times-append key (h ∷ a) b = ground (arith, times-append key a b)

times-has_header : (key : String) (raw : Headers) → has_header key raw ≡ false → times key raw ≡ 0
times-has_header key [] h = refl
times-has_header key (x ∷ raw) h = ground (arith, times-has_header key raw)

-- The keys of the security headers.
pub data SecurityKey : Type 0 where
  content_type_options frame_options referrer_policy content_security_policy transport_security :
      SecurityKey

abbrev pub key_of : SecurityKey → String
key_of content_type_options = "x-content-type-options"
key_of frame_options = "x-frame-options"
key_of referrer_policy = "referrer-policy"
key_of content_security_policy = "content-security-policy"
key_of transport_security = "strict-transport-security"

-- How often a header is added.
abbrev added : String → Headers → Headers → ℕ
added key raw [] = 0
added key raw (h ∷ hs) =
    (if has_header h.0 raw then 0 else if lower_is h.0 key then 1 else 0) + added key raw hs

times-missing_from :
    (key : String) (raw hs : Headers) → times key (missing_from raw hs) ≡ added key raw hs
times-missing_from key raw [] = refl
times-missing_from key raw (h ∷ hs) = ground (arith, times-missing_from key raw hs)

added-security :
    (key : SecurityKey) (raw : Headers)
    → added (key_of key) raw security_headers ≡ (if has_header (key_of key) raw then 0 else 1)
added-security content_type_options raw = ground arith
added-security frame_options raw = ground arith
added-security referrer_policy raw = ground arith
added-security content_security_policy raw = ground arith
added-security transport_security raw = ground arith

id_only : (key : SecurityKey) (v : String) → times (key_of key) (("x-request-id", v) ∷ []) ≡ 0
id_only content_type_options v = refl
id_only frame_options v = refl
id_only referrer_policy v = refl
id_only content_security_policy v = refl
id_only transport_security v = refl

-- Each security header that the application has set is left as often as it was, and each that it has
-- not set is there once.
pub secured-times :
    (fresh : String) (sent raw : Headers) (key : SecurityKey)
    → times (key_of key) (secured fresh sent raw)
      ≡ (if has_header (key_of key) raw then times (key_of key) raw else 1)
unfolding secured
secured-times fresh sent raw key =
    rw
      (
        times-append (key_of key) (raw ++ missing_from raw security_headers)
            (("x-request-id", request_id fresh sent) ∷ []),
        times-append (key_of key) raw (missing_from raw security_headers),
        times-missing_from (key_of key) raw security_headers,
        added-security key raw,
        id_only key (request_id fresh sent),
      )
      (ground (arith, times-has_header (key_of key) raw))
