-- ===== src/Sam/Layers.antt =====
-- The layers that `parse_sam_template` of tools/generator/parser.py attaches.
use edge_serverless_box.Base.{
  ◌≡◌, inl, inr, sym, ap, ◌∙◌, String, Bool, true, Option, none, some, List, [], ◌∷◌, map, arith,
  str_eq, Bool-cases,
}
use mathlib.Core.Option.{none-ne-some, some-injective}
use edge_serverless_box.Base.Dict.{Dict, lookup, insert}
use edge_serverless_box.Http.Value.{
  Json, null, boolean, number, text, array, object, Items, nil, cons, Fields,
}
use edge_serverless_box.Sam.{get_map}
use edge_serverless_box.Sam.Resources.{Layer, SamFunction}
use edge_serverless_box.Sam.Template.{
  layer_id, find_layer, layer_refs, append_found, func_layers, layers_for, attach_layers, values,
}
use edge_serverless_box.Base.Chain.{bind_cases, taken, not_taken, all_of}

-- Every layer of a list satisfies what every value of a dictionary does.
lookup-all_of {ℓ} :
    {V : Type ℓ} (test : V → Bool) (key : String) (d : Dict V) (v : V)
    → lookup key d ≡ some v
    → all_of test (values d) ≡ true
    → test v ≡ true
unfolding lookup values
lookup-all_of test key [] v found all = absurd (none-ne-some v found)
lookup-all_of test key ((k, w) ∷ d) v found all = elim (Bool-cases (str_eq k key)) [
  | inl here ↦ ap test (sym (some-injective _ _ (taken _ _ _ _ here found))) ∙ ground arith
  | inr there ↦ lookup-all_of test key d v (not_taken _ _ _ _ there found) (ground arith)
]

-- What `layers[id]` adds to the list.
attached-all :
    (test : Layer → Bool) (layers : Dict Layer) (id : Json) (found : Option Layer)
    (rest : List Layer)
    → all_of test (values layers) ≡ true
    → find_layer layers id ≡ some found
    → all_of test rest ≡ true
    → all_of test (append_found found rest) ≡ true
unfolding find_layer
attached-all test layers id none rest all e rest_all = rest_all
attached-all test layers (text key) (some layer) rest all e rest_all =
    ground (arith, lookup-all_of test key layers layer (some-injective _ _ e) all)
attached-all test layers null (some layer) rest all e r =
    absurd (none-ne-some layer (some-injective _ _ e))
attached-all test layers (boolean b) (some layer) rest all e r =
    absurd (none-ne-some layer (some-injective _ _ e))
attached-all test layers (number n) (some layer) rest all e r =
    absurd (none-ne-some layer (some-injective _ _ e))
attached-all test layers (array vs) (some layer) rest all e r = absurd (none-ne-some (some layer) e)
attached-all test layers (object fs) (some layer) rest all e r =
    absurd (none-ne-some (some layer) e)

func_layers-all :
    (test : Layer → Bool) (layers : Dict Layer) (refs : Items) (ls : List Layer)
    → all_of test (values layers) ≡ true
    → func_layers layers refs ≡ some ls
    → all_of test ls ≡ true
unfolding func_layers
func_layers-all test layers nil ls all e = sym (ap (all_of test) (some-injective _ _ e))
func_layers-all test layers (cons ref refs) ls all e =
    let (found, (e1, k1)) = bind_cases (find_layer layers (layer_id ref)) _ ls e in
    let (rest, (e2, k2)) = bind_cases (func_layers layers refs) _ ls k1 in
    sym (ap (all_of test) (some-injective _ _ k2))
    ∙ attached-all test layers (layer_id ref) found rest all e1
        (func_layers-all test layers refs rest all e2)

layers_for-all :
    (test : Layer → Bool) (globals resources : Fields) (layers : Dict Layer) (f : SamFunction)
    (ls : List Layer)
    → all_of test (values layers) ≡ true
    → layers_for globals resources layers f ≡ some ls
    → all_of test ls ≡ true
unfolding layers_for
layers_for-all test globals resources layers f ls all e =
    let (resource, (e1, k1)) = bind_cases (get_map f.logical_id resources) _ ls e in
    let (props, (e2, k2)) = bind_cases (get_map "Properties" resource) _ ls k1 in
    let (refs, (e3, k3)) = bind_cases (layer_refs globals props) _ ls k2 in
    func_layers-all test layers refs ls all k3

pub attach_layers-all :
    (test : Layer → Bool) (globals resources : Fields) (layers : Dict Layer) (fs : List SamFunction)
    (attached : List (SamFunction × List Layer))
    → all_of test (values layers) ≡ true
    → attach_layers globals resources layers fs ≡ some attached
    → (map (λ (p : SamFunction × List Layer). p.0) attached ≡ fs)
      × (all_of (λ (p : SamFunction × List Layer). all_of test p.1) attached ≡ true)
unfolding attach_layers
attach_layers-all test globals resources layers [] attached all e =
    let same = some-injective _ _ e in
    (
      sym (ap (map (λ (p : SamFunction × List Layer). p.0)) same),
      sym (ap (all_of (λ (p : SamFunction × List Layer). all_of test p.1)) same),
    )
attach_layers-all test globals resources layers (f ∷ fs) attached all e =
    let (ls, (e1, k1)) = bind_cases (layers_for globals resources layers f) _ attached e in
    let (rest, (e2, k2)) = bind_cases (attach_layers globals resources layers fs) _ attached k1 in
    let same = some-injective _ _ k2 in
    let (names, tested) = attach_layers-all test globals resources layers fs rest all e2 in
    (
      sym (ap (map (λ (p : SamFunction × List Layer). p.0)) same)
          ∙ ap (λ (gs : List SamFunction). f ∷ gs) names,
      sym (ap (all_of (λ (p : SamFunction × List Layer). all_of test p.1)) same)
          ∙ ground (arith, layers_for-all test globals resources layers f ls all e1, tested),
    )

pub insert-all_of {ℓ} :
    {V : Type ℓ} (test : V → Bool) (key : String) (v : V) (d : Dict V)
    → test v ≡ true
    → all_of test (values d) ≡ true
    → all_of test (values (insert key v d)) ≡ true
unfolding insert values
insert-all_of test key v [] holds all = ground arith
insert-all_of test key v ((k, w) ∷ d) holds all = ground (arith, insert-all_of test key v d holds)
