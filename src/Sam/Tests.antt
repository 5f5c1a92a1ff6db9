-- ===== src/Sam/Tests.antt =====
-- A run of tools/generator/parser.py.
use edge_serverless_box.Base.{◌≡◌, refl, Bool, true, none, some, List, [], ◌∷◌, map}
use edge_serverless_box.Base.Dict.{lookup, insert}
use edge_serverless_box.Http.Value.{
  number, text, array, object, nil, cons, Fields, end, field, get, truthy,
}
use edge_serverless_box.Sam.{
  Texts, get_map, get_some, ends_with_slash, with_slash, resolve_intrinsic, resolve_all, api_routes,
}
use edge_serverless_box.Base.Chain.{all_of}
use edge_serverless_box.Sam.Resources.{
  Layer, SamFunction, resolved, uri_of, function_of, functions_of, record_resource, resources_of,
}
use edge_serverless_box.Sam.Template.{
  Template, layer_id, find_layer, layer_refs, iterated, func_layers, layers_for, attach_layers,
  values, parse_sam_template,
}
use edge_serverless_box.Sam.Functions.{function_ids}
use edge_serverless_box.Sam.Parsed.{
  resources_in, slashed, parse_sam_template-functions, parse_sam_template-layers,
}

-- No text of the example has a `${name}`, a capital letter in a bucket's id, or a number to test.
abbrev texts : Texts
texts = record { show = λ v. "?"; lower = λ t. t; is_nonzero = λ n. true; substitute = λ f t. t }

-- A function with a route and two references to layers, of which one exists, its layer, and a bucket.
abbrev template : Fields
template =
    field "Resources"
      (object (
        field "Hello"
          (object (
            field "Type" (text "AWS::Serverless::Function") (
              field "Properties"
                (object (
                  field "FunctionName" (text "lambda-hello") (
                    field "CodeUri" (text "functions/hello") (
                      field "ReservedConcurrentExecutions" (number "3") (
                        field "Layers"
                          (array (
                            cons (object (field "Ref" (text "Common") end))
                              (cons (text "Missing") nil)))
                          (field "Events"
                            (object (
                              field "Get"
                                (object (
                                  field "Type" (text "Api") (
                                    field "Properties"
                                      (object (
                                        field "Path" (text "/hello")
                                          (field "Method" (text "get") end)))
                                      end)))
                                end))
                            end))))))
                end)))
          (field "Common"
            (object (
              field "Type" (text "AWS::Serverless::LayerVersion")
                (field "Properties" (object (field "ContentUri" (text "layers/common/") end)) end)))
            (field "files" (object (field "Type" (text "AWS::S3::Bucket") end)) end))))
      end

abbrev common : Layer
common = record { name = "Common"; content_uri = "layers/common/" }

abbrev hello : SamFunction
hello = record {
  logical_id = "Hello";
  name = "lambda-hello";
  code_uri = "functions/hello/";
  handler = text "lambda_function.lambda_handler";
  runtime = text "python3.12";
  timeout = number "30";
  memory_size = number "128";
  environment = [];
  events = record { path = text "/hello"; method = text "get" } ∷ [];
  scaling = record { max_capacity = some (number "3"); min_capacity = none };
}

abbrev parsed : Template
parsed = record {
  functions = (hello, common ∷ []) ∷ [];
  dynamodb = [];
  s3 = "files" ∷ [];
  layers = common ∷ [];
}

parse_run : parse_sam_template texts (object template) [] ≡ some parsed
unfolding parse_sam_template get_map functions_of function_of resources_of record_resource
    attach_layers layers_for func_layers find_layer layer_id layer_refs iterated values resolved
    uri_of resolve_intrinsic with_slash ends_with_slash api_routes resolve_all get_some truthy get
    lookup insert
parse_run = refl

parse_sam_template-functions_example :
    map (λ (p : SamFunction × List Layer). p.0.logical_id) parsed.functions
    ≡ function_ids (resources_in template)
parse_sam_template-functions_example =
    parse_sam_template-functions texts [] template parsed parse_run

parse_sam_template-layers_example :
    (all_of (λ (p : SamFunction × List Layer). ends_with_slash p.0.code_uri) parsed.functions
      ≡ true)
    × (all_of slashed parsed.layers ≡ true)
    × ((test : Layer → Bool)
        → all_of test parsed.layers ≡ true
        → all_of (λ (p : SamFunction × List Layer). all_of test p.1) parsed.functions ≡ true)
parse_sam_template-layers_example = parse_sam_template-layers texts [] template parsed parse_run
