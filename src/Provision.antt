-- ===== src/Provision.antt =====
-- services/gateway/services/grpc_provision.py: the client through which the pool manager has the
-- agent create containers. The agent's stub and the network are parameters.
pub mod Environment
pub mod Outcomes
mod Tests
use edge_serverless_box.Base.{
  ℕ, zero, suc, ◌+◌, ◌-◌, ◌*◌, ◌≤◌, ◌<◌, ◌≡◌, ◌≢◌, ◌⊎◌, inl, inr, ◌↔◌, refl, sym, ap, ◌∙◌, subst,
  String, Bool, true, false, not, ◌&&◌, ◌||◌, Option, none, some, List, [], ◌∷◌, ◌++◌, map, arith,
  eq_iff, length, length-append, keep_if, any_of, str_eq, str_eq_refl, ltb, leb, ◌==◌,
  if◌then◌else◌, Bool-cases, Option-cases, Result, ok, err,
}
use edge_serverless_box.Base.Dict.{Dict, lookup, insert}
use edge_serverless_box.Worker.{WorkerInfo}
use edge_serverless_box.Registry.{FunctionConfig, FunctionRegistry, get_function_config, or_empty}
use edge_serverless_box.Readiness.{wait_for_readiness}

-- What `provision` reads of the gateway's configuration and, with `log_level`, of `os.environ`.
pub record Settings : Type 0 where
  pub victorialogs_url : String
  pub gateway_internal_url : String
  pub log_level : Option String

-- `d.get(key, default)`, and `value or ""`
abbrev pub text_or : Option String → String → String
text_or none d = d
text_or (some v) d = v

-- `dict(func_config.get("environment", {})) if func_config else {}`
abbrev pub base_environment : Option FunctionConfig → Dict String
base_environment none = []
base_environment (some c) = or_empty c.environment

-- The variables of the Lambda runtime.
unfoldable pub with_runtime : String → Dict String → Dict String
with_runtime name env =
    let named = insert "AWS_LAMBDA_FUNCTION_NAME" name env in
    let versioned = insert "AWS_LAMBDA_FUNCTION_VERSION" "$LATEST" named in
    insert "AWS_REGION" (text_or (lookup "AWS_REGION" versioned) "ap-northeast-1") versioned

-- `if url: env[key] = url`
unfoldable pub with_url : String → String → Dict String → Dict String
with_url key url env = if str_eq url "" then env else insert key url env

-- `if key in func_config: env[variable] = str(func_config[key])`
unfoldable pub with_setting : String → Option String → Dict String → Dict String
with_setting variable none env = env
with_setting variable (some v) env = insert variable v env

unfoldable pub with_limits : Option FunctionConfig → Dict String → Dict String
unfolding with_setting
with_limits none env = env
with_limits (some c) env =
    with_setting "AWS_LAMBDA_FUNCTION_MEMORY_SIZE" c.memory_size
      (with_setting "AWS_LAMBDA_FUNCTION_TIMEOUT" c.timeout env)

-- The environment of a new container.
unfoldable pub environment_for : Settings → String → Option FunctionConfig → Dict String
unfolding with_runtime with_url with_limits
environment_for s name c =
    let runtime = with_runtime name (base_environment c) in
    let logs = with_url "VICTORIALOGS_URL" s.victorialogs_url runtime in
    let level = insert "LOG_LEVEL" (text_or s.log_level "INFO") logs in
    let gateway = with_url "GATEWAY_INTERNAL_URL" s.gateway_internal_url level in
    with_limits c gateway

-- `EnsureContainerRequest` and the answer to it
pub record EnsureRequest : Type 0 where
  pub function_name : String
  pub image : String
  pub env : Dict String

pub record EnsureReply : Type 0 where
  pub id : String
  pub name : String
  pub ip_address : String
  pub port : ℕ

-- `func_config.get("image") if func_config else None`
abbrev image_of : Option FunctionConfig → Option String
image_of none = none
image_of (some c) = c.image

unfoldable pub request_for : Settings → FunctionRegistry → String → EnsureRequest
unfolding environment_for
request_for s r name =
    let c = get_function_config r name in
    record { function_name = name; image = text_or (image_of c) ""; env = environment_for s name c }

unfoldable pub new_worker : EnsureReply → WorkerInfo
new_worker e = record {
  id = e.id;
  name = e.name;
  ip_address = e.ip_address;
  port = if e.port == 0 then 8080 else e.port;
  created_at = 0;
  last_used_at = 0;
}

-- What the client's calls raise: the error of the agent's stub, or `ContainerStartError`.
pub data ProvisionError : Type 0 where
  agent_error not_ready : ProvisionError

-- How the network answers: whether attempt k to connect to a port of a host is answered, and when
-- it is made.
pub record Network : Type 0 where
  pub clock : ℕ → ℕ
  pub connects : String → ℕ → ℕ → Bool

-- `_wait_for_readiness` of a worker
abbrev pub readiness : ℕ → Network → WorkerInfo → Option Bool
readiness timeout net w = wait_for_readiness timeout net.clock (net.connects w.ip_address w.port)

abbrev pub once_ready : WorkerInfo → Option Bool → Option (Result ProvisionError (List WorkerInfo))
once_ready w none = none
once_ready w (some true) = some (ok (w ∷ []))
once_ready w (some false) = some (err not_ready)

abbrev pub after_reply :
    ℕ → Network → Option EnsureReply → Option (Result ProvisionError (List WorkerInfo))
after_reply timeout net none = some (err agent_error)
after_reply timeout net (some e) = once_ready (new_worker e) (readiness timeout net (new_worker e))

-- `provision`; the stub answers a request, or raises. `none` as a result would mean that the wait
-- for readiness ran out of fuel.
unfoldable pub provision :
    ℕ
    → Settings
    → FunctionRegistry
    → Network
    → (EnsureRequest → Option EnsureReply)
    → String
    → Option (Result ProvisionError (List WorkerInfo))
unfolding request_for new_worker
provision timeout s r net ensure name = after_reply timeout net (ensure (request_for s r name))

abbrev resumed : Option Bool → Option (Result ProvisionError (Unit {0}))
resumed none = none
resumed (some true) = some (ok tt)
resumed (some false) = some (err not_ready)

-- `resume_container`: after the stub's answer, the wait for the port, 8080 if the worker has none.
unfoldable pub resume_container :
    ℕ → Network → Bool → WorkerInfo → Option (Result ProvisionError (Unit {0}))
resume_container timeout net answered w =
    if answered
    then resumed (
        wait_for_readiness timeout net.clock
          (net.connects w.ip_address (if w.port == 0 then 8080 else w.port)))
    else some (err agent_error)

-- `ContainerInfo` of the agent's protocol, as far as it is read.
pub record ContainerInfo : Type 0 where
  pub container_id : String
  pub container_name : String
  pub created_at : ℕ
  pub last_used_at : ℕ

unfoldable pub listed_worker : ContainerInfo → WorkerInfo
listed_worker c = record {
  id = c.container_id;
  name = c.container_name;
  ip_address = "";
  port = 8080;
  created_at = c.created_at;
  last_used_at = c.last_used_at;
}

-- `list_containers`: an exception of the stub gives the empty list.
unfoldable pub list_containers : Option (List ContainerInfo) → List WorkerInfo
list_containers none = []
list_containers (some cs) = map listed_worker cs
