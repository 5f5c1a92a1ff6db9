-- ===== src/Registry/Loader.antt =====
-- `config_loader` of services/gateway/main.py: the scaling of a function, from its configuration and
-- the gateway's defaults.
use edge_serverless_box.Base.{String, ℕ, Option, none, some}
use edge_serverless_box.Registry.{Scaling, FunctionConfig, FunctionRegistry, get_function_config}

-- `DEFAULT_MAX_CAPACITY`, `DEFAULT_MIN_CAPACITY` and `POOL_ACQUIRE_TIMEOUT`
pub record Defaults : Type 0 where
  pub max_capacity : ℕ
  pub min_capacity : ℕ
  pub acquire_timeout : ℕ

abbrev number_or : Option ℕ → ℕ → ℕ
number_or none d = d
number_or (some n) d = n

-- `{}` for a function that is not known, and for a configuration without scaling
abbrev no_scaling : Scaling
no_scaling = record { max_capacity = none; min_capacity = none; acquire_timeout = none }

abbrev scaling_or_empty : Option Scaling → Scaling
scaling_or_empty none = no_scaling
scaling_or_empty (some s) = s

abbrev scaling_of : Option FunctionConfig → Scaling
scaling_of none = no_scaling
scaling_of (some config) = scaling_or_empty config.scaling

abbrev with_defaults : Defaults → Scaling → Scaling
with_defaults d s = record {
  max_capacity = some (number_or s.max_capacity d.max_capacity);
  min_capacity = some (number_or s.min_capacity d.min_capacity);
  acquire_timeout = some (number_or s.acquire_timeout d.acquire_timeout);
}

unfoldable pub config_loader : Defaults → FunctionRegistry → String → Scaling
unfolding get_function_config
config_loader d registry name = with_defaults d (scaling_of (get_function_config registry name))
