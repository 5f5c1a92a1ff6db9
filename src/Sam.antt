-- ===== src/Sam.antt =====
-- tools/generator/parser.py: what the generator and the provisioner read of a SAM template. YAML is
-- read by a library: the model starts from the loaded value, with `null` for an empty one.
pub mod Resources
pub mod Template
pub mod Functions
pub mod Layers
pub mod Parsed
mod Tests
use edge_serverless_box.Base.{
  ℕ, zero, suc, ◌+◌, ◌-◌, ◌*◌, ◌≤◌, ◌<◌, ◌≡◌, ◌≢◌, ◌⊎◌, inl, inr, ◌↔◌, refl, sym, ap, ◌∙◌, subst,
  String, Bool, true, false, not, ◌&&◌, ◌||◌, Option, none, some, List, [], ◌∷◌, ◌++◌, map, arith,
  eq_iff, length, length-append, keep_if, any_of, str_eq, str_eq_refl, ltb, leb, ◌==◌,
  if◌then◌else◌, Bool-cases, Option-cases, Result, ok, err,
}
use Prim.Native.Char.{code}
use Prim.Native.String
use edge_serverless_box.Base.Chain.{◌>>=◌}
use edge_serverless_box.Base.Dict.{Dict, lookup, insert}
use edge_serverless_box.Base.Text.{append, is_empty}
use edge_serverless_box.Http.Value.{
  Json, null, boolean, number, text, array, object, Items, nil, cons, Fields, end, field, get,
  truthy,
}

-- `str`, `lower`, whether a number is not 0, and `re.sub` of each `${name}` by a function of the
-- name.
pub record Texts : Type 0 where
  pub show : Json → String
  pub lower : String → String
  pub is_nonzero : String → Bool
  pub substitute : (String → String) → String → String

-- `m.get(key, {})`, which must be a mapping for the `get` that follows; `none` is an exception.
abbrev mapping : Option Json → Option Fields
mapping none = some end
mapping (some (object fields)) = some fields
mapping (some other) = none

unfoldable pub get_map : String → Fields → Option Fields
unfolding get
get_map key fields = mapping (get key fields)

-- `m.get(key, default)`
abbrev pub json_or : Option Json → Json → Json
json_or none d = d
json_or (some v) d = v

-- `m.get(key)` where None is tested for
unfoldable pub get_some : String → Fields → Option Json
unfolding get
get_some key fields = unless_null (get key fields)
  where
    unless_null : Option Json → Option Json
    unless_null none = none
    unless_null (some null) = none
    unless_null (some v) = some v

abbrev pub is_text : String → Json → Bool
is_text t (text s) = str_eq s t
is_text t other = false

-- `not path.endswith("/")` decides whether one is added
unfoldable pub ends_with_slash : String → Bool
ends_with_slash String.[] = false
ends_with_slash (String.◌∷◌ c String.[]) = code c == b'/'
ends_with_slash (String.◌∷◌ c (String.◌∷◌ d s)) = ends_with_slash (String.◌∷◌ d s)

unfoldable pub with_slash : String → String
unfolding ends_with_slash
with_slash uri = if ends_with_slash uri then uri else append uri "/"

abbrev text_or : Option String → String → String
text_or none d = d
text_or (some t) d = t

pub record ApiRoute : Type 0 where
  pub path : Json
  pub method : Json

module _ (texts : Texts) (parameters : Dict String) where
  unfoldable pub resolve_intrinsic : Json → String
  resolve_intrinsic (text t) =
      texts.substitute (λ name. text_or (lookup name parameters) (append "${" (append name "}"))) t
  resolve_intrinsic null = ""
  resolve_intrinsic v = texts.show v

  -- The environment's values, resolved.
  unfoldable pub resolve_all : Fields → Dict String
  resolve_all end = []
  resolve_all (field key v rest) = (key, resolve_intrinsic v) ∷ resolve_all rest

  abbrev route_if : Option Json → Option Json → List ApiRoute → List ApiRoute
  route_if (some path) (some method) rest =
      if truthy texts.is_nonzero path && truthy texts.is_nonzero method
      then record { path = path; method = method } ∷ rest
      else rest
  route_if path method rest = rest

  -- The routes of the events of type Api that have a path and a method.
  unfoldable pub api_routes : Fields → Option (List ApiRoute)
  unfolding get_map get
  api_routes end = some []
  api_routes (field name (object event) rest) =
      let others = api_routes rest in
      if is_text "Api" (json_or (get "Type" event) null)
      then (get_map "Properties" event >>= λ properties. others >>= λ routes.
          some (route_if (get "Path" properties) (get "Method" properties) routes))
      else others
  api_routes (field name other rest) = none
