-- ===== src/Sam/Parsed.antt =====
-- What `parse_sam_template` of tools/generator/parser.py gives.
use edge_serverless_box.Base.{
  ◌≡◌, inl, inr, refl, sym, ap, ◌∙◌, String, Bool, true, ◌&&◌, Option, none, some, List, [], ◌∷◌,
  map, Bool-cases,
}
use mathlib.Core.Option.{none-ne-some, some-injective}
use edge_serverless_box.Base.Dict.{Dict}
use edge_serverless_box.Http.Value.{null, boolean, number, text, array, object, Fields, end, field}
use edge_serverless_box.Sam.{Texts, get_map, ends_with_slash}
use edge_serverless_box.Sam.Resources.{
  Layer, SamFunction, Found, has_type, resolved, uri_of, functions_of, resources_of,
  record_resource, layer_of,
}
use edge_serverless_box.Sam.Template.{Template, attach_layers, values, parse_sam_template}
use edge_serverless_box.Base.Chain.{bind_cases, taken, not_taken, all_of}
use edge_serverless_box.Sam.Functions.{with_slash-ends, function_ids, functions_of-shape}
use edge_serverless_box.Sam.Layers.{attach_layers-all, insert-all_of}

abbrev pub slashed : Layer → Bool
slashed layer = ends_with_slash layer.content_uri

module _ (texts : Texts) (parameters : Dict String) where
  record_resource-slashes :
      (id : String) (resource : Fields) (found found' : Found)
      → all_of slashed (values found.layers) ≡ true
      → record_resource texts parameters id resource found ≡ some found'
      → all_of slashed (values found'.layers) ≡ true
  unfolding record_resource uri_of
  record_resource-slashes id resource found found' all e =
      elim (Bool-cases (has_type "AWS::Serverless::LayerVersion" resource)) [
        | inl layer ↦
            let (props, (e1, k1)) =
              bind_cases (get_map "Properties" resource) _ found' (taken _ _ _ _ layer e) in
            sym (ap (λ f. all_of slashed (values f.layers)) (some-injective _ _ k1))
            ∙ insert-all_of slashed id (layer_of texts parameters id props) found.layers
                (with_slash-ends (resolved texts parameters "ContentUri" "./" props)) all
        | inr no_layer ↦ elim (Bool-cases (has_type "AWS::DynamoDB::Table" resource)) [
          | inl table ↦
              let (props, (e1, k1)) =
                bind_cases (get_map "Properties" resource) _ found'
                  (taken _ _ _ _ table (not_taken _ _ _ _ no_layer e)) in
              sym (ap (λ f. all_of slashed (values f.layers)) (some-injective _ _ k1)) ∙ all
          | inr no_table ↦ elim (Bool-cases (has_type "AWS::S3::Bucket" resource)) [
            | inl bucket ↦
                let (props, (e1, k1)) = bind_cases (get_map "Properties" resource) _ found' (
                  taken _ _ _ _ bucket
                    (not_taken _ _ _ _ no_table (not_taken _ _ _ _ no_layer e))) in
                sym (ap (λ f. all_of slashed (values f.layers)) (some-injective _ _ k1)) ∙ all
            | inr no_bucket ↦
                sym (
                  ap (λ f. all_of slashed (values f.layers))
                    (some-injective _ _ (
                      not_taken _ _ _ _ no_bucket
                        (not_taken _ _ _ _ no_table (not_taken _ _ _ _ no_layer e)))))
                ∙ all
          ]
        ]
      ]

  resources_of-slashes :
      (resources : Fields) (found found' : Found)
      → all_of slashed (values found.layers) ≡ true
      → resources_of texts parameters resources found ≡ some found'
      → all_of slashed (values found'.layers) ≡ true
  unfolding resources_of
  resources_of-slashes end found found' all e =
      sym (ap (λ f. all_of slashed (values f.layers)) (some-injective _ _ e)) ∙ all
  resources_of-slashes (field id (object resource) rest) found found' all e =
      let (next, (e1, k1)) =
        bind_cases (record_resource texts parameters id resource found) _ found' e in
      resources_of-slashes rest next found' (record_resource-slashes id resource found next all e1)
        k1
  resources_of-slashes (field id null rest) found found' all e = absurd (none-ne-some found' e)
  resources_of-slashes (field id (boolean b) rest) found found' all e =
      absurd (none-ne-some found' e)
  resources_of-slashes (field id (number n) rest) found found' all e =
      absurd (none-ne-some found' e)
  resources_of-slashes (field id (text t) rest) found found' all e = absurd (none-ne-some found' e)
  resources_of-slashes (field id (array vs) rest) found found' all e =
      absurd (none-ne-some found' e)

abbrev or_end : Option Fields → Fields
or_end none = end
or_end (some resources) = resources

-- The resources of a template.
abbrev pub resources_in : Fields → Fields
resources_in template = or_end (get_map "Resources" template)

-- The parts of a template that was parsed.
record Parts (texts : Texts) (parameters : Dict String) (template : Fields) (r : Template)
    : Type 0 where
  pub globals : Fields
  pub functions : List SamFunction
  pub found : Found
  pub functions_e : functions_of texts parameters globals (resources_in template) ≡ some functions
  pub found_e :
      resources_of texts parameters
        (resources_in template)
        (record { dynamodb = []; s3 = []; layers = [] })
      ≡ some found
  pub attached_e :
      attach_layers globals (resources_in template) found.layers functions ≡ some r.functions
  pub layers_e : values found.layers ≡ r.layers

parts :
    (texts : Texts) (parameters : Dict String) (template : Fields) (r : Template)
    → parse_sam_template texts (object template) parameters ≡ some r
    → Parts texts parameters template r
unfolding parse_sam_template
parts texts parameters template r e =
    let (all, (e1, k1)) = bind_cases (get_map "Globals" template) _ r e in
    let (globals, (e2, k2)) = bind_cases (get_map "Function" all) _ r k1 in
    let (resources, (e3, k3)) = bind_cases (get_map "Resources" template) _ r k2 in
    let (functions, (e4, k4)) =
      bind_cases (functions_of texts parameters globals resources) _ r k3 in
    let (found, (e5, k5)) =
      bind_cases
        (resources_of texts parameters resources (record { dynamodb = []; s3 = []; layers = [] })) _
        r k4 in
    let (attached, (e6, k6)) =
      bind_cases (attach_layers globals resources found.layers functions) _ r k5 in
    let same = some-injective _ _ k6 in
    let here : resources_in template ≡ resources = ap or_end e3 in
    record {
      globals = globals;
      functions = functions;
      found = found;
      functions_e = ap (functions_of texts parameters globals) here ∙ e4;
      found_e =
          ap
            (λ rs.
              resources_of texts parameters rs (record { dynamodb = []; s3 = []; layers = [] }))
            here
          ∙ e5;
      attached_e =
          ap (λ rs. attach_layers globals rs found.layers functions) here
          ∙ (e6 ∙ ap (λ (t : Template). some t.functions) same);
      layers_e = ap (λ (t : Template). t.layers) same;
    }

-- The functions of a template that is parsed are its resources of type AWS::Serverless::Function,
-- under their logical ids and in their order, each once.
pub parse_sam_template-functions :
    (texts : Texts) (parameters : Dict String) (template : Fields) (r : Template)
    → parse_sam_template texts (object template) parameters ≡ some r
    → map (λ (p : SamFunction × List Layer). p.0.logical_id) r.functions
      ≡ function_ids (resources_in template)
parse_sam_template-functions texts parameters template r e =
    let p = parts texts parameters template r e in
    names r.functions
    ∙ ap (map (λ f. f.logical_id))
        (attach_layers-all (λ l. true) p.globals (resources_in template) p.found.layers p.functions
          r.functions (trivial (values p.found.layers)) p.attached_e).0
    ∙ (functions_of-shape texts parameters p.globals (resources_in template) p.functions
        p.functions_e).0
  where
    names :
        (ps : List (SamFunction × List Layer))
        → map (λ (p : SamFunction × List Layer). p.0.logical_id) ps
          ≡ map (λ f. f.logical_id) (map (λ (p : SamFunction × List Layer). p.0) ps)
    names [] = refl
    names (p ∷ ps) = ap (λ (is : List String). p.0.logical_id ∷ is) (names ps)

    trivial : (ls : List Layer) → all_of (λ l. true) ls ≡ true
    trivial [] = refl
    trivial (l ∷ ls) = trivial ls

-- In a template that is parsed, the code of every function, the contents of every layer and those of
-- every layer of a function are directories, with a slash at the end; and a layer of a function is one
-- of the template's, since it satisfies each test that all of those satisfy.
pub parse_sam_template-layers :
    (texts : Texts) (parameters : Dict String) (template : Fields) (r : Template)
    → parse_sam_template texts (object template) parameters ≡ some r
    → (all_of (λ (p : SamFunction × List Layer). ends_with_slash p.0.code_uri) r.functions ≡ true)
      × (all_of slashed r.layers ≡ true)
      × ((test : Layer → Bool)
          → all_of test r.layers ≡ true
          → all_of (λ (p : SamFunction × List Layer). all_of test p.1) r.functions ≡ true)
unfolding values
parse_sam_template-layers texts parameters template r e =
    let p = parts texts parameters template r e in
    let found_slashed =
      resources_of-slashes texts parameters (resources_in template)
        (record { dynamodb = []; s3 = []; layers = [] }) p.found refl p.found_e in
    (
      firsts r.functions
          ∙ ap (all_of (λ f. ends_with_slash f.code_uri))
              (attach_layers-all slashed p.globals (resources_in template) p.found.layers
                p.functions r.functions found_slashed p.attached_e).0
          ∙ (functions_of-shape texts parameters p.globals (resources_in template) p.functions
              p.functions_e).1,
      ap (all_of slashed) (sym p.layers_e) ∙ found_slashed,
      λ test all.
          (attach_layers-all test p.globals (resources_in template) p.found.layers p.functions
            r.functions (ap (all_of test) p.layers_e ∙ all) p.attached_e).1,
    )
  where
    firsts :
        (ps : List (SamFunction × List Layer))
        → all_of (λ (p : SamFunction × List Layer). ends_with_slash p.0.code_uri) ps
          ≡ all_of
              (λ f. ends_with_slash f.code_uri)
              (map (λ (p : SamFunction × List Layer). p.0) ps)
    firsts [] = refl
    firsts (p ∷ ps) = ap (λ b. ends_with_slash p.0.code_uri && b) (firsts ps)
