-- ===== src/Sam/Resources.antt =====
-- tools/generator/parser.py: the loops of `parse_sam_template` over the resources of a template.
use edge_serverless_box.Base.{String, Bool, Option, none, some, List, [], ◌∷◌, ◌++◌, if◌then◌else◌}
use edge_serverless_box.Base.Chain.{◌>>=◌}
use edge_serverless_box.Base.Dict.{Dict, insert}
use edge_serverless_box.Http.Value.{Json, null, number, text, object, Fields, end, field, get}
use edge_serverless_box.Sam.{
  Texts, get_map, json_or, get_some, is_text, with_slash, resolve_intrinsic, resolve_all, ApiRoute,
  api_routes,
}

pub record Layer : Type 0 where
  pub name : String
  pub content_uri : String

-- A capacity that is `none` is left out.
pub record Scaling : Type 0 where
  pub max_capacity : Option Json
  pub min_capacity : Option Json

pub record SamFunction : Type 0 where
  pub logical_id : String
  pub name : String
  pub code_uri : String
  pub handler : Json
  pub runtime : Json
  pub timeout : Json
  pub memory_size : Json
  pub environment : Dict String
  pub events : List ApiRoute
  pub scaling : Scaling

pub record Table : Type 0 where
  pub table_name : String
  pub key_schema : Json
  pub attribute_definitions : Json
  pub global_secondary_indexes : Json
  pub billing_mode : Json
  pub provisioned_throughput : Json

pub record Found : Type 0 where
  pub dynamodb : List Table
  pub s3 : List String
  pub layers : Dict Layer

abbrev pub function_type : String
function_type = "AWS::Serverless::Function"

-- `resource.get("Type", "") == type`
abbrev pub has_type : String → Fields → Bool
has_type type resource = is_text type (json_or (get "Type" resource) (text ""))

abbrev none_as_null : Option Json → Json
none_as_null v = json_or v null

module _ (texts : Texts) (parameters : Dict String) where
  -- `_resolve_intrinsic(props.get(key, default), parameters)`
  unfoldable pub resolved : String → String → Fields → String
  unfolding get resolve_intrinsic
  resolved key default props =
      resolve_intrinsic texts parameters (json_or (get key props) (text default))

  unfoldable pub uri_of : String → Fields → String
  unfolding resolved with_slash
  uri_of key props = with_slash (resolved key "./" props)

  -- The body of the loop over the functions.
  unfoldable pub function_of : Fields → String → Fields → Option SamFunction
  unfolding get get_map get_some resolved uri_of resolve_all api_routes
  function_of globals logical_id props = get_map "Environment" props >>= λ environment.
      get_map "Variables" environment >>= λ variables. get_map "Events" props >>= λ events.
      api_routes texts parameters events >>= λ routes.
      get_map "ProvisionedConcurrencyConfig" props >>= λ provisioned. some record {
        logical_id = logical_id;
        name = resolved "FunctionName" logical_id props;
        code_uri = uri_of "CodeUri" props;
        handler =
            json_or (get "Handler" props)
              (json_or (get "Handler" globals) (text "lambda_function.lambda_handler"));
        runtime =
            json_or (get "Runtime" props) (json_or (get "Runtime" globals) (text "python3.12"));
        timeout = json_or (get "Timeout" props) (json_or (get "Timeout" globals) (number "30"));
        memory_size =
            json_or (get "MemorySize" props) (json_or (get "MemorySize" globals) (number "128"));
        environment = resolve_all texts parameters variables;
        events = routes;
        scaling = record {
          max_capacity = get_some "ReservedConcurrentExecutions" props;
          min_capacity = get_some "ProvisionedConcurrentExecutions" provisioned;
        };
      }

  unfoldable pub functions_of : Fields → Fields → Option (List SamFunction)
  unfolding get get_map function_of
  functions_of globals end = some []
  functions_of globals (field logical_id (object resource) rest) =
      let others = functions_of globals rest in
      if has_type function_type resource
      then (get_map "Properties" resource >>= λ props.
          function_of globals logical_id props >>= λ f. others >>= λ fs. some (f ∷ fs))
      else others
  functions_of globals (field logical_id other rest) = none

  abbrev pub layer_of : String → Fields → Layer
  layer_of logical_id props = record {
    name = resolved "LayerName" logical_id props;
    content_uri = uri_of "ContentUri" props;
  }

  abbrev pub table_of : String → Fields → Table
  table_of logical_id props = record {
    table_name = resolved "TableName" logical_id props;
    key_schema = none_as_null (get "KeySchema" props);
    attribute_definitions = none_as_null (get "AttributeDefinitions" props);
    global_secondary_indexes = none_as_null (get "GlobalSecondaryIndexes" props);
    billing_mode = json_or (get "BillingMode" props) (text "PROVISIONED");
    provisioned_throughput = none_as_null (get "ProvisionedThroughput" props);
  }

  -- The body of the loop over the other resources. Properties that are no mapping are an exception
  -- in the branches that read them only.
  unfoldable pub record_resource : String → Fields → Found → Option Found
  unfolding get get_map resolved uri_of insert
  record_resource logical_id resource found =
      if has_type "AWS::Serverless::LayerVersion" resource
      then (get_map "Properties" resource >>= λ props. some record {
        dynamodb = found.dynamodb;
        s3 = found.s3;
        layers = insert logical_id (layer_of logical_id props) found.layers;
      })
      else if has_type "AWS::DynamoDB::Table" resource
      then (get_map "Properties" resource >>= λ props. some record {
        dynamodb = found.dynamodb ++ table_of logical_id props ∷ [];
        s3 = found.s3;
        layers = found.layers;
      })
      else if has_type "AWS::S3::Bucket" resource
      then (get_map "Properties" resource >>= λ props. some record {
        dynamodb = found.dynamodb;
        s3 = found.s3 ++ resolved "BucketName" (texts.lower logical_id) props ∷ [];
        layers = found.layers;
      })
      else some found

  unfoldable pub resources_of : Fields → Found → Option Found
  unfolding record_resource
  resources_of end found = some found
  resources_of (field logical_id (object resource) rest) found =
      record_resource logical_id resource found >>= λ found'. resources_of rest found'
  resources_of (field logical_id other rest) found = none
