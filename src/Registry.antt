-- ===== src/Registry.antt =====
-- services/gateway/services/function_registry.py: the registry of functions. The files that it
-- loads are YAML, read by a library: the model starts from the loaded mappings, of which a
-- configuration keeps the keys that the program reads.
pub mod Loader
mod Tests
use edge_serverless_box.Base.{
  ℕ, zero, suc, ◌+◌, ◌-◌, ◌*◌, ◌≤◌, ◌<◌, ◌≡◌, ◌≢◌, ◌⊎◌, inl, inr, ◌↔◌, refl, sym, ap, ◌∙◌, subst,
  String, Bool, true, false, not, ◌&&◌, ◌||◌, Option, none, some, List, [], ◌∷◌, ◌++◌, map, arith,
  eq_iff, length, length-append, keep_if, any_of, str_eq, str_eq_refl, ltb, leb, ◌==◌,
  if◌then◌else◌, Bool-cases, Option-cases, Result, ok, err,
}
use edge_serverless_box.Base.Dict.{
  Dict, lookup, insert, update, Unique, or_else, or_else-none, lookup-update,
}

-- The `scaling` mapping of a function; a key may be missing.
pub record Scaling : Type 0 where
  pub max_capacity : Option ℕ
  pub min_capacity : Option ℕ
  pub acquire_timeout : Option ℕ

pub record FunctionConfig : Type 0 where
  pub environment : Option (Dict String)
  pub image : Option String
  pub scaling : Option Scaling
  pub reserved_concurrent_executions : Option ℕ
  pub timeout : Option String
  pub memory_size : Option String

-- `{}`, which stands for an entry that is null
abbrev pub empty_config : FunctionConfig
empty_config = record {
  environment = none;
  image = none;
  scaling = none;
  reserved_concurrent_executions = none;
  timeout = none;
  memory_size = none;
}

pub record FunctionRegistry : Type 0 where
  pub registry : Dict (Option FunctionConfig)
  -- `_defaults.get("environment")`
  pub default_environment : Option (Dict String)

-- What reading the configuration ends with: no file, a text that is no YAML, or its two mappings.
pub data LoadedFunctions : Type 0 where
  no_file malformed : LoadedFunctions
  loaded : Option (Dict String) → Dict (Option FunctionConfig) → LoadedFunctions

-- `load_functions_config`
unfoldable pub load_functions_config : LoadedFunctions → FunctionRegistry
load_functions_config no_file = record { registry = []; default_environment = none }
load_functions_config malformed = record { registry = []; default_environment = none }
load_functions_config (loaded environment functions) = record {
  registry = functions;
  default_environment = environment;
}

-- `mapping.get(key, {})`, and `entry or {}`
abbrev pub or_empty : Option (Dict String) → Dict String
or_empty none = []
or_empty (some d) = d

abbrev pub or_default : Option FunctionConfig → FunctionConfig
or_default none = empty_config
or_default (some c) = c

-- The default environment, with the function's own put over it.
unfoldable pub merge_environment : Option (Dict String) → FunctionConfig → FunctionConfig
merge_environment defaults c = record c {
  environment = some (update (update [] (or_empty defaults)) (or_empty c.environment));
}

abbrev merged_entry : Option (Dict String) → Option (Option FunctionConfig) → Option FunctionConfig
merged_entry defaults none = none
merged_entry defaults (some c) = some (merge_environment defaults (or_default c))

unfoldable pub get_function_config : FunctionRegistry → String → Option FunctionConfig
get_function_config r name = merged_entry r.default_environment (lookup name r.registry)

-- The configuration of a known function has each variable as the function sets it, else as the
-- defaults set it, else not at all; its other keys are those of its entry.
pub get_function_config_lem :
    (r : FunctionRegistry) (name : String) (entry : Option FunctionConfig)
    → Unique (or_empty r.default_environment)
    → Unique (or_empty (or_default entry).environment)
    → lookup name r.registry ≡ some entry
    → (c : FunctionConfig) × (get_function_config r name ≡ some c)
      × ((key : String)
          → lookup key (or_empty c.environment)
            ≡ or_else
                (lookup key (or_empty (or_default entry).environment))
                (lookup key (or_empty r.default_environment)))
      × (c.image ≡ (or_default entry).image)
      × (c.scaling ≡ (or_default entry).scaling)
      × (c.reserved_concurrent_executions ≡ (or_default entry).reserved_concurrent_executions)
      × (c.timeout ≡ (or_default entry).timeout)
      × (c.memory_size ≡ (or_default entry).memory_size)
unfolding get_function_config merge_environment lookup
get_function_config_lem r name entry defaults_unique own_unique found = (
  merge_environment r.default_environment (or_default entry),
  ap (merged_entry r.default_environment) found,
  λ key.
      lookup-update key (update [] (or_empty r.default_environment)) _ own_unique
      ∙ ap (or_else (lookup key (or_empty (or_default entry).environment))) (
          lookup-update key [] (or_empty r.default_environment) defaults_unique
          ∙ or_else-none (lookup key (or_empty r.default_environment))),
  refl,
  refl,
  refl,
  refl,
  refl,
)
