-- ===== src/Sam/Functions.antt =====
-- The functions that `parse_sam_template` of tools/generator/parser.py finds.
use edge_serverless_box.Base.{
  ◌≡◌, inl, inr, refl, sym, ap, ◌∙◌, String, true, some, List, [], ◌∷◌, map, arith, if◌then◌else◌,
  Bool-cases,
}
use mathlib.Core.Option.{none-ne-some, some-injective}
use edge_serverless_box.Base.Dict.{Dict}
use edge_serverless_box.Base.Text.{append}
use edge_serverless_box.Http.Value.{null, boolean, number, text, array, object, Fields, end, field}
use edge_serverless_box.Sam.{Texts, get_map, ends_with_slash, with_slash, api_routes}
use edge_serverless_box.Sam.Resources.{
  SamFunction, has_type, function_type, resolved, uri_of, function_of, functions_of,
}
use edge_serverless_box.Base.Chain.{bind_cases, taken, not_taken, all_of}

append-slash : (s : String) → ends_with_slash (append s "/") ≡ true
unfolding ends_with_slash
append-slash String.[] = refl
append-slash (String.◌∷◌ c String.[]) = refl
append-slash (String.◌∷◌ c (String.◌∷◌ d s)) = append-slash (String.◌∷◌ d s)

pub with_slash-ends : (s : String) → ends_with_slash (with_slash s) ≡ true
unfolding with_slash
with_slash-ends s = elim (Bool-cases (ends_with_slash s)) [
  | inl slash ↦ rw slash slash
  | inr no_slash ↦ rw no_slash (append-slash s)
]

-- The names of the resources that are functions, in order.
unfoldable pub function_ids : Fields → List String
function_ids end = []
function_ids (field logical_id (object resource) rest) =
    let others = function_ids rest in
    if has_type function_type resource then logical_id ∷ others else others
function_ids (field logical_id other rest) = function_ids rest

module _ (texts : Texts) (parameters : Dict String) where
  function_of-shape :
      (globals : Fields) (id : String) (props : Fields) (f : SamFunction)
      → function_of texts parameters globals id props ≡ some f
      → (f.logical_id ≡ id) × (ends_with_slash f.code_uri ≡ true)
  unfolding function_of uri_of
  function_of-shape globals id props f e =
      let (environment, (e1, k1)) = bind_cases (get_map "Environment" props) _ f e in
      let (variables, (e2, k2)) = bind_cases (get_map "Variables" environment) _ f k1 in
      let (events, (e3, k3)) = bind_cases (get_map "Events" props) _ f k2 in
      let (routes, (e4, k4)) = bind_cases (api_routes texts parameters events) _ f k3 in
      let (provisioned, (e5, k5)) =
        bind_cases (get_map "ProvisionedConcurrencyConfig" props) _ f k4 in
      let same = some-injective _ _ k5 in
      (
        sym (ap (λ g. g.logical_id) same),
        sym (ap (λ g. ends_with_slash g.code_uri) same)
            ∙ with_slash-ends (resolved texts parameters "CodeUri" "./" props),
      )

  pub functions_of-shape :
      (globals resources : Fields) (fs : List SamFunction)
      → functions_of texts parameters globals resources ≡ some fs
      → (map (λ f. f.logical_id) fs ≡ function_ids resources)
        × (all_of (λ f. ends_with_slash f.code_uri) fs ≡ true)
  unfolding functions_of function_ids
  functions_of-shape globals end fs e =
      let same = some-injective _ _ e in
      (
        sym (ap (map (λ f. f.logical_id)) same),
        sym (ap (all_of (λ (f : SamFunction). ends_with_slash f.code_uri)) same),
      )
  functions_of-shape globals (field id (object resource) rest) fs e =
      elim (Bool-cases (has_type function_type resource)) [
        | inl holds ↦
            let (props, (e1, k1)) =
              bind_cases (get_map "Properties" resource) _ fs (taken _ _ _ _ holds e) in
            let (f, (e2, k2)) =
              bind_cases (function_of texts parameters globals id props) _ fs k1 in
            let (others, (e3, k3)) =
              bind_cases (functions_of texts parameters globals rest) _ fs k2 in
            let (first, uri) = function_of-shape globals id props f e2 in
            let (ids, uris) = functions_of-shape globals rest others e3 in
            let same = some-injective _ _ k3 in
            rw holds (
              sym (ap (map (λ g. g.logical_id)) same) ∙ cc,
              sym (ap (all_of (λ (g : SamFunction). ends_with_slash g.code_uri)) same)
                  ∙ ground (arith, uri, uris),
            )
        | inr fails ↦ rw fails (functions_of-shape globals rest fs (not_taken _ _ _ _ fails e))
      ]
  functions_of-shape globals (field id null rest) fs e = absurd (none-ne-some fs e)
  functions_of-shape globals (field id (boolean b) rest) fs e = absurd (none-ne-some fs e)
  functions_of-shape globals (field id (number n) rest) fs e = absurd (none-ne-some fs e)
  functions_of-shape globals (field id (text t) rest) fs e = absurd (none-ne-some fs e)
  functions_of-shape globals (field id (array vs) rest) fs e = absurd (none-ne-some fs e)
