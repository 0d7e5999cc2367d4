-- ===== src/Api/App.antt =====
-- handlerAPI/app.py: what the application owns while it runs, and its middleware. FastAPI puts a
-- middleware that is added around those that were added before.
use job_processing_workflow.Prelude.{
  ℕ, ◌≤◌, ◌≡◌, String, Bool, true, false, Option, some, none, List, [], ◌∷◌, if◌then◌else◌, arith,
  Option-cases, inl, inr, ◌⊎◌,
}
use job_processing_workflow.Api.{Response}
use job_processing_workflow.Api.Middleware.{
  Headers, secured, times, key_of, SecurityKey, has_header, secured-times,
}
use job_processing_workflow.Api.RateLimit.{
  Limiter, Verdict, passes, stops, middleware, key as rate_key,
}

-- `app.state`: what `create_app` was given, or `lifespan` has made.
pub record State (S V : Type 0) : Type 0 where
  pub store : Option S
  pub verifier : Option V

-- What `lifespan` comes to until it yields: the application runs, and it is known whether the store
-- was made here; or an exception has left it, with what was there by then.
pub data Started (S V : Type 0) : Type 0 where
  runs : S → V → (created_store : Bool) → Started S V
  fails : State S V → Started S V

-- Where a store and a verifier of a running application come from: they were injected, or have
-- been made here.
abbrev pub Origin : {A : Type 0} → Option A → Option A → A → Type 0
Origin injected made a = (injected ≡ some a) ⊎ ((injected ≡ none) × (made ≡ some a))

-- `make_store` is the constructor of PostgresStore and `make_verifier` is `build_verifier`, on the
-- settings; nothing where they raise.
module _ {S V : Type 0} (make_store : Option S) (make_verifier : Option V) where
  abbrev pub with_verifier : S → Bool → Option V → Started S V
  with_verifier s created_store (some v) = runs s v created_store
  with_verifier s created_store none = elim make_verifier [
    | none ↦ fails (record { store = some s; verifier = none })
    | some v ↦ runs s v created_store
  ]

  -- `lifespan` up to `yield`, on the state that `create_app` has filled.
  unfoldable pub startup : State S V → Started S V
  startup injected = elim injected.store [
    | some s ↦ with_verifier s false injected.verifier
    | none ↦ elim make_store [
      | none ↦ fails injected
      | some s ↦ with_verifier s true injected.verifier
    ]
  ]

  -- The `finally` clause: the stores that it closes.
  unfoldable pub shutdown : Started S V → List S
  shutdown (fails state) = []
  shutdown (runs s v created_store) = if created_store then s ∷ [] else []

  -- A store that was injected is used and left open, and one that is made here is closed when the
  -- application ends, and no other; what was injected is never replaced.
  pub startup-shutdown :
      (injected : State S V) (s : S) (v : V) (created_store : Bool)
      → startup injected ≡ runs s v created_store
      → Origin injected.verifier make_verifier v
        × (((injected.store ≡ some s) × (shutdown (startup injected) ≡ []))
            ⊎ ((injected.store ≡ none)
                × (make_store ≡ some s)
                × (shutdown (startup injected) ≡ s ∷ [])))
  unfolding startup shutdown
  startup-shutdown injected s v created_store e = elim (Option-cases injected.store) [
    | inl absent ↦ elim (Option-cases make_store) [
      | inl broken ↦ absurd (ground (arith, absent, broken, e))
      | inr (made, works) ↦ elim (Option-cases injected.verifier) [
        | inl none_given ↦ elim (Option-cases make_verifier) [
          | inl fruitless ↦ absurd (ground (arith, absent, works, none_given, fruitless, e))
          | inr (w, built) ↦ ground (arith, absent, works, none_given, built, e)
        ]
        | inr (w, given) ↦ ground (arith, absent, works, given, e)
      ]
    ]
    | inr (own, there) ↦ elim (Option-cases injected.verifier) [
      | inl none_given ↦ elim (Option-cases make_verifier) [
        | inl fruitless ↦ absurd (ground (arith, there, none_given, fruitless, e))
        | inr (w, built) ↦ ground (arith, there, none_given, built, e)
      ]
      | inr (w, given) ↦ ground (arith, there, given, e)
    ]
  ]

has_header-times : (key : String) (raw : Headers) → has_header key raw ≡ true → 1 ≤ times key raw
has_header-times key [] e = cc
has_header-times key (h ∷ raw) e = ground (arith, has_header-times key raw)

secured_has :
    (fresh : String) (sent raw : Headers) (key : SecurityKey)
    → 1 ≤ times (key_of key) (secured fresh sent raw)
secured_has fresh sent raw key =
    ground (arith, secured-times fresh sent raw key, has_header-times (key_of key) raw)

-- A request, as far as the middleware looks at it.
pub record Request : Type 0 where
  pub is_http : Bool
  pub path : String
  pub authorization : Option String
  pub host : Option String
  pub headers : Headers

-- The start of a response.
pub record Start : Type 0 where
  pub status : ℕ
  pub headers : Headers

-- An application over the state of the limiter. It also tells whether the routes were reached.
abbrev pub Asgi : Type 0 → Type 0
Asgi L = Request → L → L × Start

module _ {L : Type 0} (fresh : String) where
  abbrev pub secured_start : Request → L × Start → L × Start
  secured_start request (l, start) =
      (l, record start { headers = secured fresh request.headers start.headers })

  -- SecurityMiddleware around an application; `fresh` is the id that `uuid4` gives.
  abbrev pub secures : Asgi L → Asgi L
  secures app request l =
      let done = secured_start request (app request l) in
      if request.is_http then done else app request l

  -- Every response that the middleware sends on to a request by HTTP has each of the headers.
  pub secures-times :
      (app : Asgi L) (request : Request) (l : L) (key : SecurityKey)
      → request.is_http ≡ true
      → 1 ≤ times (key_of key) (secures app request l).1.headers
  secures-times app request l key http = rw http (secured_has fresh request.headers _ key)

module _ {L : Type 0} (limiter : Limiter L) (digest : String → String) (enabled : Bool)
    (item : String) (fresh : String) (rendered : Response → Headers) where
  abbrev pub answer : Asgi L → Request → L × Verdict → L × Start
  answer app request (l, passes) = app request l
  answer app request (l, stops response) =
      (l, record { status = response.status_code; headers = rendered response })

  -- RateLimitMiddleware around an application; `rendered` are the headers that starlette gives a
  -- response.
  abbrev pub limited : Asgi L → Asgi L
  limited app request l = answer app request (
      middleware limiter digest enabled item request.path request.is_http request.authorization
        request.host l)

  -- `cors` is CORSMiddleware around an application, which is added where origins are given.
  abbrev pub with_cors : (cors : Asgi L → Asgi L) → List String → Asgi L → Asgi L
  with_cors cors [] routes = routes
  with_cors cors (_ ∷ _) routes = cors routes

  unfoldable pub create_app : (cors : Asgi L → Asgi L) → List String → Asgi L → Asgi L
  create_app cors cors_allow_origins routes =
      secures fresh (limited (with_cors cors cors_allow_origins routes))

  module _ (cors : Asgi L → Asgi L) (cors_allow_origins : List String) (routes : Asgi L)
      (request : Request) (l : L) (http : request.is_http ≡ true) where
    -- Every response to a request by HTTP has each of the security headers, whoever has made it: the
    -- routes, the handler of cross-origin requests, or the limiter.
    pub create_app-times :
        (key : SecurityKey)
        → 1 ≤ times (key_of key) ((create_app cors cors_allow_origins routes request l).1).headers
    unfolding create_app
    create_app-times key =
        secures-times fresh (limited (with_cors cors cors_allow_origins routes)) request l key http

    -- A request that the limiter refuses is answered by 429, with each of the security headers, and
    -- the routes play no part.
    pub create_app-limited :
        enabled ≡ true
        → (limiter.hit (rate_key digest request.authorization request.host) l).1 ≡ false
        → (key : SecurityKey) (other : Asgi L)
        → let r = create_app cors cors_allow_origins routes request l in
          (r.1.status ≡ 429)
          × (1 ≤ times (key_of key) r.1.headers)
          × (create_app cors cors_allow_origins other request l ≡ r)
    unfolding create_app middleware
    create_app-limited on refused key other =
        (ground (arith, http, on, refused), create_app-times key, ground (arith, http, on, refused))
