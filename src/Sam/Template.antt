-- ===== src/Sam/Template.antt =====
-- tools/generator/parser.py: `parse_sam_template`, with the layers that it attaches to the functions.
use edge_serverless_box.Base.{String, Option, none, some, List, [], ◌∷◌}
use edge_serverless_box.Base.Chain.{◌>>=◌}
use edge_serverless_box.Base.Dict.{Dict, lookup}
use edge_serverless_box.Http.Value.{
  Json, text, array, object, Items, nil, cons, Fields, end, field, get,
}
use edge_serverless_box.Sam.{Texts, get_map, json_or}
use edge_serverless_box.Sam.Resources.{Layer, SamFunction, Table, functions_of, resources_of}

-- Each function stands with its layers.
pub record Template : Type 0 where
  pub functions : List (SamFunction × List Layer)
  pub dynamodb : List Table
  pub s3 : List String
  pub layers : List Layer

-- What `for ref in refs` runs over: a mapping gives its keys, a text its characters.
abbrev characters : String → Items
characters String.[] = nil
characters (String.◌∷◌ c s) = cons (text (String.◌∷◌ c String.[])) (characters s)

abbrev keys : Fields → Items
keys end = nil
keys (field key v rest) = cons (text key) (keys rest)

unfoldable pub iterated : Json → Option Items
iterated (array items) = some items
iterated (object fields) = some (keys fields)
iterated (text t) = some (characters t)
iterated v = none

-- `ref["Ref"]` of a mapping that has it
unfoldable pub layer_id : Json → Json
unfolding get
layer_id (object fields) = json_or (get "Ref" fields) (object fields)
layer_id v = v

-- `layers[id]` if `id in layers`, which is an exception for a list or a mapping.
unfoldable pub find_layer : Dict Layer → Json → Option (Option Layer)
unfolding lookup
find_layer layers (text id) = some (lookup id layers)
find_layer layers (array items) = none
find_layer layers (object fields) = none
find_layer layers v = some none

abbrev pub append_found : Option Layer → List Layer → List Layer
append_found none rest = rest
append_found (some layer) rest = layer ∷ rest

unfoldable pub func_layers : Dict Layer → Items → Option (List Layer)
unfolding layer_id find_layer
func_layers layers nil = some []
func_layers layers (cons ref refs) =
    let rest = func_layers layers refs in
    find_layer layers (layer_id ref) >>= λ found. rest >>= λ ls. some (append_found found ls)

-- `props.get("Layers", default_layers)`, as what the loop runs over
unfoldable pub layer_refs : Fields → Fields → Option Items
unfolding get iterated
layer_refs globals props =
    iterated (json_or (get "Layers" props) (json_or (get "Layers" globals) (array nil)))

-- The body of the loop that attaches layers to a function.
unfoldable pub layers_for : Fields → Fields → Dict Layer → SamFunction → Option (List Layer)
unfolding get_map layer_refs func_layers
layers_for globals resources layers f = get_map f.logical_id resources >>= λ resource.
    get_map "Properties" resource >>= λ props.
    layer_refs globals props >>= λ refs. func_layers layers refs

unfoldable pub attach_layers :
    Fields → Fields → Dict Layer → List SamFunction → Option (List (SamFunction × List Layer))
unfolding layers_for
attach_layers globals resources layers [] = some []
attach_layers globals resources layers (f ∷ fs) =
    let rest = attach_layers globals resources layers fs in
    layers_for globals resources layers f >>= λ ls. rest >>= λ done. some ((f, ls) ∷ done)

-- `list(layers.values())`
unfoldable pub values {ℓ} : {V : Type ℓ} → Dict V → List V
values [] = []
values ((k, v) ∷ d) = v ∷ values d

-- `parse_sam_template`, once the content is loaded.
unfoldable pub parse_sam_template : Texts → Json → Dict String → Option Template
unfolding get_map functions_of resources_of attach_layers values
parse_sam_template texts (object template) parameters =
    get_map "Globals" template >>= λ all_globals. get_map "Function" all_globals >>= λ globals.
    get_map "Resources" template >>= λ resources.
    functions_of texts parameters globals resources >>= λ functions.
    resources_of texts parameters resources record { dynamodb = []; s3 = []; layers = [] }
    >>= λ found. attach_layers globals resources found.layers functions >>= λ attached.
        some record {
          functions = attached;
          dynamodb = found.dynamodb;
          s3 = found.s3;
          layers = values found.layers;
        }
parse_sam_template texts other parameters = none
