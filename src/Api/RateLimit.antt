-- ===== src/Api/RateLimit.antt =====
-- handlerAPI/ratelimit.py. The hash of a token and the limiter are those of libraries, and stand
-- as parameters.
use job_processing_workflow.Prelude.{
  String, Bool, not, ◌||◌, Option, none, [], ◌∷◌, strip, after_space, if◌then◌else◌,
}
use Prim.Native.String
use mathlib.Core.Option.{get_or}
use job_processing_workflow.Models.{text, integer, pos}
use job_processing_workflow.Api.{Response}
use job_processing_workflow.Api.Auth.{is_bearer}

-- `_key`: `digest` is the first half of the hash in hexadecimal digits, `host` that of the client.
unfoldable pub key : (digest : String → String) → (authorization host : Option String) → String
key digest authorization host =
    let header = get_or authorization "" in
    if is_bearer header
    then String.◌++◌ "tok:" (digest (strip (after_space header)))
    else get_or host "anonymous"

-- A limiter: whether it allows one more request of this key, and its state after that.
pub record Limiter (L : Type 0) : Type 0 where
  pub hit : String → L → L × Bool

-- `str(self._item)` is the limit as the library prints it.
abbrev pub too_many : String → String → Response
too_many item path = record {
  status_code = 429;
  content =
      ("type", text "about:blank")
      ∷ ("title", text "Too Many Requests")
      ∷ ("status", integer (pos 429))
      ∷ ("detail", text (String.◌++◌ "rate limit exceeded: " item))
      ∷ ("instance", text path)
      ∷ [];
  media_type = "application/problem+json";
  headers = none;
}

-- What becomes of a request: the application runs on it, or the answer is given at once.
pub data Verdict : Type 0 where
  passes : Verdict
  stops : Response → Verdict

unfoldable pub middleware :
    {L : Type 0}
    → Limiter L
    → (digest : String → String) → (enabled : Bool) → (item path : String) → (is_http : Bool)
    → (authorization host : Option String) → L
    → L × Verdict
middleware limiter digest enabled item path is_http authorization host l =
    let (l', allowed) = limiter.hit (key digest authorization host) l in
    if not is_http || not enabled
    then (l, passes)
    else (l', if allowed then passes else stops (too_many item path))
