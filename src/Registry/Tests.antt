-- ===== src/Registry/Tests.antt =====
-- The function registry on a small configuration.
use edge_serverless_box.Base.{◌≡◌, refl, none, some, [], ◌∷◌}
use edge_serverless_box.Base.Dict.{lookup, insert, update}
use edge_serverless_box.Registry.{
  FunctionConfig, FunctionRegistry, empty_config, merge_environment, get_function_config,
}

abbrev echo_config : FunctionConfig
echo_config = record empty_config {
  environment = some (("STAGE", "dev") ∷ ("KEY", "1") ∷ []);
  image = some "echo:latest";
}

abbrev registry : FunctionRegistry
registry = record {
  registry = ("bare", none) ∷ ("echo", some echo_config) ∷ [];
  default_environment = some (("REGION", "tokyo") ∷ ("STAGE", "prod") ∷ []);
}

merged :
    get_function_config registry "echo"
    ≡ some (record echo_config {
      environment = some (("REGION", "tokyo") ∷ ("STAGE", "dev") ∷ ("KEY", "1") ∷ []);
    })
unfolding get_function_config merge_environment lookup insert update
merged = refl
