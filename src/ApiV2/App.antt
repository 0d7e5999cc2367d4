-- ===== src/ApiV2/App.antt =====
-- handlerAPIv2/app.py: which store the application runs on, and what it closes when it ends; and its
-- middleware.
use job_processing_workflow.Prelude.{
  ◌≡◌, String, Bool, true, false, Option, some, none, List, [], ◌∷◌, lookup, text_key, ◌==◌,
  if◌then◌else◌, arith, Bool-cases, Option-cases, inl, inr, ◌⊎◌,
}
use job_processing_workflow.Models.{ℤ}
use job_processing_workflow.MemoryStore.{InMemoryStore, empty_store}
use job_processing_workflow.Config.{Environment}
use job_processing_workflow.Api.{Response}
use job_processing_workflow.Api.Middleware.{Headers}
use job_processing_workflow.Api.RateLimit.{Limiter, middleware}
use job_processing_workflow.Api.App as V1
use job_processing_workflow.ApiV2.Middleware.{secures}
use job_processing_workflow.Api.App.{Request, Asgi, State, Started, runs, fails, with_verifier}
use job_processing_workflow.Api.Config.{non_empty}
use job_processing_workflow.ApiV2.Breaker.{Guarded}
use job_processing_workflow.ApiV2.Config.{Settings, from_env, from_env-database_url}

-- The store of an application: one that was injected, a PostgresStore behind a breaker, or one of the
-- process.
pub data Chosen (S B P : Type 0) : Type 0 where
  injected : S → Chosen S B P
  guards : Guarded B P → Chosen S B P
  in_process : InMemoryStore → Chosen S B P

-- A database behind a breaker with the numbers of the settings.
abbrev pub guarded_database : {F S B P : Type 0} → (ℤ → F → B) → Settings F → P → Chosen S B P
guarded_database build_breaker settings database = guards (record {
  breaker = build_breaker settings.db_circuit_failure_threshold settings.db_circuit_reset_timeout;
  inner = database;
})

-- `build_breaker` is that of pybreaker, with the threshold and the timeout; `make_postgres` is the
-- constructor of PostgresStore, and `make_verifier` is `build_verifier`; nothing where they raise.
module _ {F S B P V : Type 0} (build_breaker : ℤ → F → B) (make_postgres : String → Option P)
    (make_verifier : Option V) (settings : Settings F) where
  abbrev guarded_by : Option P → Option (Chosen S B P)
  guarded_by none = none
  guarded_by (some p) = some (guarded_database build_breaker settings p)

  -- The store that is made where none was injected; a `database_url` that is empty counts as none.
  abbrev pub made_by : Option String → Option (Chosen S B P)
  made_by none = some (in_process empty_store)
  made_by (some url) =
      if url == "" then some (in_process empty_store) else guarded_by (make_postgres url)

  abbrev made_here : State S V → Option (Chosen S B P) → Started (Chosen S B P) V
  made_here given none = fails (record { store = none; verifier = given.verifier })
  made_here given (some store) = with_verifier (some store) make_verifier store true given.verifier

  -- `lifespan` up to `yield`.
  unfoldable pub startup : State S V → Started (Chosen S B P) V
  startup given = elim given.store [
    | some s ↦ with_verifier (some (injected s)) make_verifier (injected s) false given.verifier
    | none ↦ made_here given (made_by settings.database_url)
  ]

  -- The `finally` clause: what it closes. InMemoryStore has no `close`.
  abbrev closes : Chosen S B P → List P
  closes (guards g) = g.inner ∷ []
  closes _ = []

  unfoldable pub shutdown : Started (Chosen S B P) V → List P
  shutdown (fails state) = []
  shutdown (runs store v created_store) = if created_store then closes store else []

module _ {F S B P V : Type 0} (build_breaker : ℤ → F → B) (make_postgres : String → Option P)
    (make_verifier : Option V) (settings : Settings F) where
  abbrev started : State S V → Started (Chosen S B P) V
  started given = startup build_breaker make_postgres make_verifier settings given

  abbrev made_store : Option (Chosen S B P)
  made_store = made_by build_breaker make_postgres make_verifier settings settings.database_url

  startup_made :
      (given : State S V) (store : Chosen S B P) (v : V) (created_store : Bool)
      → given.store ≡ none
      → started given ≡ runs store v created_store
      → (made_store ≡ some store) × (created_store ≡ true)
  unfolding startup
  startup_made given store v created_store bare e = elim (Option-cases (made_store)) [
    | inl unreachable ↦ absurd (ground (arith, bare, unreachable, e))
    | inr (made, works) ↦ elim (Option-cases given.verifier) [
      | inl missing ↦ elim (Option-cases make_verifier) [
        | inl fruitless ↦ absurd (ground (arith, bare, works, missing, fruitless, e))
        | inr (w, built) ↦ ground (arith, bare, works, missing, built, e)
      ]
      | inr (w, there) ↦ ground (arith, bare, works, there, e)
    ]
  ]

  -- The store of an application that runs without an injected one is a store of the process, with
  -- nothing to close, exactly where DATABASE_URL is unset or empty; else it is the database at this
  -- address behind a breaker, and this database is closed at the end.
  pub startup-from_env :
      (float : String → Option F) (env : Environment) (given : State S V) (store : Chosen S B P)
      (v : V) (created_store : Bool)
      → from_env float env ≡ some settings
      → given.store ≡ none
      → started given ≡ runs store v created_store
      → let closed = shutdown build_breaker make_postgres make_verifier settings (started given) in
        ((non_empty (lookup "DATABASE_URL" env) ≡ none)
          × (store ≡ in_process empty_store)
          × (closed ≡ []))
        ⊎ ((url : String) × (database : P) × (non_empty (lookup "DATABASE_URL" env) ≡ some url)
            × (make_postgres url ≡ some database)
            × (store ≡ guarded_database build_breaker settings database)
            × (closed ≡ database ∷ []))
  unfolding shutdown
  startup-from_env float env given store v created_store read bare e =
      let (made, here) = startup_made given store v created_store bare e in
      let from = from_env-database_url float env settings read in
      elim (Option-cases (lookup "DATABASE_URL" env)) [
        | inl unset ↦ inl (ground (arith, unset, from, made, here, e))
        | inr (url, set) ↦ elim (Bool-cases (url == "")) [
          | inl empty ↦ inl (ground (arith, set, empty, from, made, here, e))
          | inr full ↦ elim (Option-cases (make_postgres url)) [
            | inl unreachable ↦ absurd (ground (arith, set, full, from, unreachable, made))
            | inr (database, works) ↦ inr (
              url,
              database,
              ground (arith, set, full),
              works,
              ground (arith, set, full, from, works, made),
              ground (arith, set, full, from, works, made, here, e),
            )
          ]
        ]
      ]

-- The application around its routes: SecurityMiddleware alone.
unfoldable pub create_app : {L : Type 0} → (fresh : String) → Asgi L → Asgi L
create_app fresh routes = secures fresh routes

-- handlerAPI with the same routes gives the same responses, where its limiter is disabled and no
-- origins are allowed.
pub create_app-create_app :
    {L : Type 0} (limiter : Limiter L) (digest : String → String) (item fresh : String)
    (rendered : Response → Headers) (cors : Asgi L → Asgi L) (routes : Asgi L) (request : Request)
    (l : L)
    → V1.create_app limiter digest false item fresh rendered cors [] routes request l
      ≡ create_app fresh routes request l
unfolding create_app V1.create_app middleware
create_app-create_app limiter digest item fresh rendered cors routes request l =
    elim (Bool-cases request.is_http) [
      | inl http ↦ ground (arith, http)
      | inr other ↦ ground (arith, other)
    ]
