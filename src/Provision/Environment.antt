-- ===== src/Provision/Environment.antt =====
-- The variables that `provision` of services/gateway/services/grpc_provision.py sets.
use edge_serverless_box.Base.{
  ◌≡◌, refl, ◌∙◌, subst, String, true, false, Option, none, some, arith, eq_iff, str_eq,
  if◌then◌else◌,
}
use edge_serverless_box.Base.Dict.{Dict, lookup, insert, or_else, lookup-insert}
use edge_serverless_box.Registry.{FunctionConfig}
use edge_serverless_box.Provision.{
  Settings, text_or, base_environment, with_runtime, with_url, with_setting, with_limits,
  environment_for,
}

-- A variable that is set to a text unless that is empty.
abbrev pub url_or : String → Option String → Option String
url_or url old = if str_eq url "" then old else some url

abbrev pub timeout_of : Option FunctionConfig → Option String
timeout_of none = none
timeout_of (some c) = c.timeout

abbrev pub memory_of : Option FunctionConfig → Option String
memory_of none = none
memory_of (some c) = c.memory_size

-- What a variable of a new container is, by its name.
unfoldable pub variable : Settings → String → Option FunctionConfig → String → Option String
variable s name c key =
    let old = lookup key (base_environment c) in
    if str_eq "AWS_LAMBDA_FUNCTION_MEMORY_SIZE" key
    then or_else (memory_of c) old
    else if str_eq "AWS_LAMBDA_FUNCTION_TIMEOUT" key
    then or_else (timeout_of c) old
    else if str_eq "GATEWAY_INTERNAL_URL" key
    then url_or s.gateway_internal_url old
    else if str_eq "LOG_LEVEL" key
    then some (text_or s.log_level "INFO")
    else if str_eq "VICTORIALOGS_URL" key
    then url_or s.victorialogs_url old
    else if str_eq "AWS_REGION" key
    then some (text_or (lookup "AWS_REGION" (base_environment c)) "ap-northeast-1")
    else if str_eq "AWS_LAMBDA_FUNCTION_VERSION" key
    then some "$LATEST"
    else if str_eq "AWS_LAMBDA_FUNCTION_NAME" key
    then some name
    else old

lookup-with_url :
    (j url key : String) (env : Dict String)
    → lookup key (with_url j url env)
      ≡ (if str_eq j key then url_or url (lookup key env) else lookup key env)
unfolding with_url
lookup-with_url j url key env = ground (arith, lookup-insert j key url env)

lookup-with_setting :
    (j : String) (v : Option String) (key : String) (env : Dict String)
    → lookup key (with_setting j v env)
      ≡ (if str_eq j key then or_else v (lookup key env) else lookup key env)
unfolding with_setting
lookup-with_setting j none key env = ground arith
lookup-with_setting j (some v) key env = lookup-insert j key v env

-- A key is at most one of two texts that differ.
distinct : (a b key : String) → str_eq b a ≡ false → str_eq a key ≡ true → str_eq b key ≡ false
distinct a b key differ found = subst (λ k. str_eq b k ≡ false) ((eq_iff a key).0 found) differ

lookup-with_limits :
    (c : Option FunctionConfig) (key : String) (env : Dict String)
    → lookup key (with_limits c env) ≡ (
        if str_eq "AWS_LAMBDA_FUNCTION_MEMORY_SIZE" key
        then or_else (memory_of c) (lookup key env)
        else if str_eq "AWS_LAMBDA_FUNCTION_TIMEOUT" key
        then or_else (timeout_of c) (lookup key env)
        else lookup key env)
unfolding with_limits
lookup-with_limits none key env = ground arith
lookup-with_limits (some c) key env =
    rw
      (lookup-with_setting "AWS_LAMBDA_FUNCTION_MEMORY_SIZE" c.memory_size key
        (with_setting "AWS_LAMBDA_FUNCTION_TIMEOUT" c.timeout env))
      (rw (lookup-with_setting "AWS_LAMBDA_FUNCTION_TIMEOUT" c.timeout key env) (
        ground (
          arith,
          distinct "AWS_LAMBDA_FUNCTION_MEMORY_SIZE" "AWS_LAMBDA_FUNCTION_TIMEOUT" key refl,
        )))

lookup-with_runtime :
    (name key : String) (env : Dict String)
    → lookup key (with_runtime name env) ≡ (
        if str_eq "AWS_REGION" key
        then some (text_or (lookup "AWS_REGION" env) "ap-northeast-1")
        else if str_eq "AWS_LAMBDA_FUNCTION_VERSION" key
        then some "$LATEST"
        else if str_eq "AWS_LAMBDA_FUNCTION_NAME" key
        then some name
        else lookup key env)
unfolding with_runtime
lookup-with_runtime name key env =
    let named = insert "AWS_LAMBDA_FUNCTION_NAME" name env in
    let versioned = insert "AWS_LAMBDA_FUNCTION_VERSION" "$LATEST" named in
    let region = text_or (lookup "AWS_REGION" versioned) "ap-northeast-1" in
    ground (
      arith,
      lookup-insert "AWS_REGION" key region versioned,
      lookup-insert "AWS_LAMBDA_FUNCTION_VERSION" key "$LATEST" named,
      lookup-insert "AWS_LAMBDA_FUNCTION_NAME" key name env,
      lookup-insert "AWS_LAMBDA_FUNCTION_VERSION" "AWS_REGION" "$LATEST" named,
      lookup-insert "AWS_LAMBDA_FUNCTION_NAME" "AWS_REGION" name env,
    )

-- Each variable of a new container is the one that the function sets, but for eight names: the
-- runtime's name and version of the function are always set over it, the region only if it is not
-- set, the log level is that of the gateway, or INFO, and the URLs, the time limit and the memory
-- limit are set where the gateway or the function configures them.
pub environment_for-variable :
    (s : Settings) (name : String) (c : Option FunctionConfig) (key : String)
    → lookup key (environment_for s name c) ≡ variable s name c key
unfolding environment_for variable
environment_for-variable s name c key =
    let runtime = with_runtime name (base_environment c) in
    let logs = with_url "VICTORIALOGS_URL" s.victorialogs_url runtime in
    let level = insert "LOG_LEVEL" (text_or s.log_level "INFO") logs in
    let gateway = with_url "GATEWAY_INTERNAL_URL" s.gateway_internal_url level in
    lookup-with_limits c key gateway
    ∙ rw (lookup-with_url "GATEWAY_INTERNAL_URL" s.gateway_internal_url key level) (
        rw (lookup-insert "LOG_LEVEL" key (text_or s.log_level "INFO") logs) (
          rw (lookup-with_url "VICTORIALOGS_URL" s.victorialogs_url key runtime) (
            rw (lookup-with_runtime name key (base_environment c)) (
              ground (
                arith,
                distinct "AWS_LAMBDA_FUNCTION_MEMORY_SIZE" "GATEWAY_INTERNAL_URL" key refl,
                distinct "AWS_LAMBDA_FUNCTION_MEMORY_SIZE" "LOG_LEVEL" key refl,
                distinct "AWS_LAMBDA_FUNCTION_MEMORY_SIZE" "VICTORIALOGS_URL" key refl,
                distinct "AWS_LAMBDA_FUNCTION_MEMORY_SIZE" "AWS_REGION" key refl,
                distinct "AWS_LAMBDA_FUNCTION_MEMORY_SIZE" "AWS_LAMBDA_FUNCTION_VERSION" key refl,
                distinct "AWS_LAMBDA_FUNCTION_MEMORY_SIZE" "AWS_LAMBDA_FUNCTION_NAME" key refl,
                distinct "AWS_LAMBDA_FUNCTION_TIMEOUT" "GATEWAY_INTERNAL_URL" key refl,
                distinct "AWS_LAMBDA_FUNCTION_TIMEOUT" "LOG_LEVEL" key refl,
                distinct "AWS_LAMBDA_FUNCTION_TIMEOUT" "VICTORIALOGS_URL" key refl,
                distinct "AWS_LAMBDA_FUNCTION_TIMEOUT" "AWS_REGION" key refl,
                distinct "AWS_LAMBDA_FUNCTION_TIMEOUT" "AWS_LAMBDA_FUNCTION_VERSION" key refl,
                distinct "AWS_LAMBDA_FUNCTION_TIMEOUT" "AWS_LAMBDA_FUNCTION_NAME" key refl,
                distinct "GATEWAY_INTERNAL_URL" "LOG_LEVEL" key refl,
                distinct "GATEWAY_INTERNAL_URL" "VICTORIALOGS_URL" key refl,
                distinct "GATEWAY_INTERNAL_URL" "AWS_REGION" key refl,
                distinct "GATEWAY_INTERNAL_URL" "AWS_LAMBDA_FUNCTION_VERSION" key refl,
                distinct "GATEWAY_INTERNAL_URL" "AWS_LAMBDA_FUNCTION_NAME" key refl,
                distinct "VICTORIALOGS_URL" "AWS_REGION" key refl,
                distinct "VICTORIALOGS_URL" "AWS_LAMBDA_FUNCTION_VERSION" key refl,
                distinct "VICTORIALOGS_URL" "AWS_LAMBDA_FUNCTION_NAME" key refl,
              )))))
