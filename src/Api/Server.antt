-- ===== src/Api/Server.antt =====
-- handlerAPI/__main__.py: what uvicorn is called with.
use job_processing_workflow.Prelude.{String, Bool, true, Option, none, some}
use job_processing_workflow.Models.{ℤ}
use job_processing_workflow.Config.{Environment}
use job_processing_workflow.Api.Config.{Settings, from_env}

-- The arguments of `uvicorn.run`.
pub record Arguments : Type 0 where
  pub app : String
  pub factory : Bool
  pub host : String
  pub port : ℤ
  pub ssl_certfile : Option String
  pub ssl_keyfile : Option String
  pub proxy_headers : Bool
  pub forwarded_allow_ips : String

module _ {F : Type 0} where
  abbrev served : Settings F → Arguments
  served settings = record {
    app = "handlerAPI.app:create_app";
    factory = true;
    host = settings.host;
    port = settings.port;
    ssl_certfile = settings.tls_certfile;
    ssl_keyfile = settings.tls_keyfile;
    proxy_headers = true;
    forwarded_allow_ips = "*";
  }

  abbrev serves : Option (Settings F) → Option Arguments
  serves none = none
  serves (some settings) = some (served settings)

  -- Nothing where the settings cannot be read.
  unfoldable pub main : (String → Option F) → Environment → Option Arguments
  main float env = serves (from_env float env)
