-- ===== src/ApiV2/Server.antt =====
-- handlerAPIv2/__main__.py: what uvicorn is called with, without files for TLS.
use job_processing_workflow.Prelude.{String, true, Option, none, some}
use job_processing_workflow.Config.{Environment}
use job_processing_workflow.Api.Server.{Arguments}
use job_processing_workflow.ApiV2.Config.{Settings, from_env}

module _ {F : Type 0} where
  abbrev served : Settings F → Arguments
  served settings = record {
    app = "handlerAPIv2.app:create_app";
    factory = true;
    host = settings.host;
    port = settings.port;
    ssl_certfile = none;
    ssl_keyfile = none;
    proxy_headers = true;
    forwarded_allow_ips = "*";
  }

  abbrev serves : Option (Settings F) → Option Arguments
  serves none = none
  serves (some settings) = some (served settings)

  -- Nothing where the settings cannot be read.
  unfoldable pub main : (String → Option F) → Environment → Option Arguments
  main float env = serves (from_env float env)
