-- ===== src/Provision/Tests.antt =====
-- Runs of services/gateway/services/grpc_provision.py.
use edge_serverless_box.Base.{ℕ, ◌+◌, ◌≡◌, refl, Bool, true, none, some, [], ◌∷◌, ◌==◌}
use edge_serverless_box.Base.Dict.{lookup, insert}
use edge_serverless_box.Registry.{FunctionConfig, FunctionRegistry, empty_config}
use edge_serverless_box.Provision.{
  Settings, EnsureReply, Network, environment_for, with_runtime, with_url, with_limits,
  with_setting,
}
use edge_serverless_box.Readiness.{wait_for_readiness, wait_loop}

abbrev settings : Settings
settings = record {
  victorialogs_url = "";
  gateway_internal_url = "https://gateway:443";
  log_level = none;
}

abbrev config : FunctionConfig
config = record empty_config {
  environment = some (("LOG_LEVEL", "DEBUG") ∷ ("TABLE", "items") ∷ []);
  timeout = some "30";
}

abbrev registry : FunctionRegistry
registry = record { registry = ("echo", some config) ∷ []; default_environment = none }

-- The third attempt to connect is answered, at time 4.
abbrev answers_third : ℕ → Bool
answers_third k = 2 == k

abbrev network : Network
network = record { clock = λ k. k + k; connects = λ host port. answers_third }

abbrev reply : EnsureReply
reply = record { id = "a"; name = "lambda-echo-1"; ip_address = "10.0.0.2"; port = 0 }

-- The function's own log level gives way to the gateway's.
log_level_overridden :
    lookup "LOG_LEVEL" (environment_for settings "echo" (some config)) ≡ some "INFO"
unfolding environment_for lookup insert with_runtime with_url with_limits with_setting
log_level_overridden = refl

ready_at_third : wait_for_readiness 10 network.clock answers_third ≡ some true
unfolding wait_for_readiness wait_loop
ready_at_third = refl
