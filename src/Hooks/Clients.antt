-- ===== src/Hooks/Clients.antt =====
-- The patched `boto3.client` of tools/generator/runtime/site-packages/sitecustomize.py: clients that
-- call the local services, and a client for logs that calls none.
use edge_serverless_box.Base.{
  ℕ, String, Bool, true, false, ◌||◌, Option, none, some, List, [], ◌∷◌, ◌++◌, str_eq,
  if◌then◌else◌,
}
use edge_serverless_box.Base.Dict.{Dict, lookup}
use edge_serverless_box.Hooks.Logs.{LogEvent, LogEntry}

-- `botocore.config.Config`, with the fields that are set.
pub record Config : Type 0 where
  pub addressing_style : Option String
  pub signature_version : Option String
  pub max_attempts : Option ℕ
  pub retry_mode : Option String
  pub connect_timeout : Option ℕ
  pub read_timeout : Option ℕ

-- The arguments by name that are read or set.
pub record Arguments : Type 0 where
  pub endpoint_url : Option String
  pub verify : Option Bool
  pub config : Option Config

pub record Client : Type 0 where
  pub service_name : String
  pub arguments : Arguments
  pub is_mock : Bool
  -- events for which the client context hook is registered
  pub hooks : List String

abbrev pub s3_config : Config
s3_config = record {
  addressing_style = some "path";
  signature_version = some "s3v4";
  max_attempts = none;
  retry_mode = none;
  connect_timeout = none;
  read_timeout = none;
}

abbrev pub retry_config : Config
retry_config = record {
  addressing_style = none;
  signature_version = none;
  max_attempts = some 10;
  retry_mode = some "standard";
  connect_timeout = some 5;
  read_timeout = some 5;
}

-- `SERVICE_CONFIG`: the variable that has a service's endpoint, and its configuration.
abbrev pub service_config : Dict (String × Config)
service_config =
    ("s3", ("S3_ENDPOINT", s3_config))
    ∷ ("dynamodb", ("DYNAMODB_ENDPOINT", retry_config))
    ∷ ("lambda", ("GATEWAY_INTERNAL_URL", retry_config))
    ∷ []

-- What a call of the client for logs comes to.
pub data Answer : Type 0 where
  token : List LogEntry × List LogEntry → Answer
  nothing : Answer
  no_log_groups : Answer
  no_log_streams : Answer
  passed_on : String → Answer

-- `_patched_make_api_call`
unfoldable pub patched_make_api_call :
    (List LogEvent → List LogEntry × List LogEntry) → String → List LogEvent → Answer
patched_make_api_call put operation_name events =
    if str_eq operation_name "PutLogEvents"
    then token (put events)
    else if str_eq operation_name "CreateLogGroup"
        || str_eq operation_name "CreateLogStream"
        || str_eq operation_name "DeleteLogGroup"
        || str_eq operation_name "DeleteLogStream"
    then nothing
    else if str_eq operation_name "DescribeLogGroups"
    then no_log_groups
    else if str_eq operation_name "DescribeLogStreams"
    then no_log_streams
    else passed_on operation_name

-- The library's `Config.merge`, and its `boto3.client`, which is `none` if it raises.
module _ (merge : Config → Config → Config) (client : String → Arguments → Option Client) where
  abbrev merged : Option Config → Config → Config
  merged none config = config
  merged (some existing) config = merge existing config

  abbrev pub redirect : Option String → Config → Arguments → Arguments
  redirect none config arguments = arguments
  redirect (some endpoint) config arguments = if str_eq endpoint "" then arguments else record {
    endpoint_url = some endpoint;
    verify = some false;
    config = some (merged arguments.config config);
  }

  abbrev pub configure_with : Dict String → Option (String × Config) → Arguments → Arguments
  configure_with environ none arguments = arguments
  configure_with environ (some (variable, config)) arguments =
      redirect (lookup variable environ) config arguments

  -- `_configure_service_endpoint`
  unfoldable pub configure_service_endpoint : Dict String → String → Arguments → Arguments
  unfolding lookup
  configure_service_endpoint environ service_name arguments =
      configure_with environ (lookup service_name service_config) arguments

  abbrev mocked : Option Client → Option Client
  mocked none = none
  mocked (some c) = some (record c { is_mock = true })

  -- `_register_lambda_hooks`
  abbrev with_hook : String → Option Client → Option Client
  with_hook service_name none = none
  with_hook service_name (some c) =
      if str_eq service_name "lambda"
      then some (record c { hooks = c.hooks ++ "provide-client-params.lambda.Invoke" ∷ [] })
      else some c

  -- `_patched_boto3_client`
  unfoldable pub patched_boto3_client : Dict String → String → Arguments → Option Client
  unfolding configure_service_endpoint
  patched_boto3_client environ service_name arguments =
      if str_eq service_name "logs"
      then mocked (client "logs" arguments)
      else with_hook service_name
          (client service_name (configure_service_endpoint environ service_name arguments))
