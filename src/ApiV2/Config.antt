-- ===== src/ApiV2/Config.antt =====
-- handlerAPIv2/config.py: the settings of the service, read from the environment.
use job_processing_workflow.Prelude.{
  ◌≡◌, inl, inr, Option-cases, arith, String, Option, some, [], ◌∷◌, lookup, text_key,
}
use job_processing_workflow.Models.{ℤ}
use job_processing_workflow.Config.{Environment, getenv, get_int, ◌>>=◌}
use job_processing_workflow.Api.Config.{Oidc, non_empty}

-- The scopes that requests need.
pub record Scopes : Type 0 where
  pub scope_write : String
  pub scope_read : String

pub record Settings (F : Type 0) : Type 0 where
  pub scopes : Scopes
  pub open scopes use *
  pub database_url : Option String
  pub oidc : Oidc
  pub open oidc use *
  pub oidc_jwks_url : String
  pub jwks_cache_ttl : F
  pub db_circuit_failure_threshold : ℤ
  pub db_circuit_reset_timeout : F
  pub host : String
  pub port : ℤ
  pub app_name : String
  pub app_version : String

module _ {F : Type 0} (float : String → Option F) where
  unfoldable pub from_env : Environment → Option (Settings F)
  from_env env = do
    leeway ← get_int "OIDC_CLOCK_SKEW_LEEWAY" "60" env
    ttl ← float (getenv "OIDC_JWKS_CACHE_TTL" "3600" env)
    threshold ← get_int "DB_CIRCUIT_FAILURE_THRESHOLD" "5" env
    reset ← float (getenv "DB_CIRCUIT_RESET_TIMEOUT" "30" env)
    port ← get_int "PORT" "8080" env
    some (record {
      scopes = record {
        scope_write = getenv "SCOPE_WRITE" "jobs.write" env;
        scope_read = getenv "SCOPE_READ" "jobs.read" env;
      };
      database_url = non_empty (lookup "DATABASE_URL" env);
      oidc = record {
        oidc_issuer = getenv "OIDC_ISSUER" "http://keycloak:8080/realms/jobs" env;
        oidc_audience = getenv "OIDC_AUDIENCE" "job-api" env;
        oidc_algorithms = "RS256" ∷ [];
        clock_skew_leeway = leeway;
      };
      oidc_jwks_url = getenv "OIDC_JWKS_URL" "" env;
      jwks_cache_ttl = ttl;
      db_circuit_failure_threshold = threshold;
      db_circuit_reset_timeout = reset;
      host = getenv "HOST" "0.0.0.0" env;
      port = port;
      app_name = "job-handler-api-v2";
      app_version = "0.1.0";
    })

module _ {F : Type 0} (float : String → Option F) where
  -- The address of the database is that of the variable, and an empty one counts as none.
  pub from_env-database_url :
      (env : Environment) (settings : Settings F)
      → from_env float env ≡ some settings
      → settings.database_url ≡ non_empty (lookup "DATABASE_URL" env)
  unfolding from_env
  from_env-database_url env settings e =
      elim (Option-cases (get_int "OIDC_CLOCK_SKEW_LEEWAY" "60" env)) [
        | inl bad ↦ absurd (ground (arith, bad, e))
        | inr (leeway, a) ↦ elim (Option-cases (float (getenv "OIDC_JWKS_CACHE_TTL" "3600" env))) [
          | inl bad ↦ absurd (ground (arith, a, bad, e))
          | inr (ttl, b) ↦ elim (Option-cases (get_int "DB_CIRCUIT_FAILURE_THRESHOLD" "5" env)) [
            | inl bad ↦ absurd (ground (arith, a, b, bad, e))
            | inr (threshold, c) ↦
                elim (Option-cases (float (getenv "DB_CIRCUIT_RESET_TIMEOUT" "30" env))) [
                  | inl bad ↦ absurd (ground (arith, a, b, c, bad, e))
                  | inr (reset, d) ↦ elim (Option-cases (get_int "PORT" "8080" env)) [
                    | inl bad ↦ absurd (ground (arith, a, b, c, d, bad, e))
                    | inr (port, f) ↦ ground (arith, a, b, c, d, f, e)
                  ]
                ]
          ]
        ]
      ]
