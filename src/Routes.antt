-- ===== src/Routes.antt =====
-- services/gateway/services/route_matcher.py and services/gateway/api/deps.py: how a request finds
-- its function, and how its user is checked. Python's regular expressions, `str.upper` and the
-- decoder of tokens are parameters.
pub mod First
mod Tests
use edge_serverless_box.Base.{
  ℕ, zero, suc, ◌+◌, ◌-◌, ◌*◌, ◌≤◌, ◌<◌, ◌≡◌, ◌≢◌, ◌⊎◌, inl, inr, ◌↔◌, refl, sym, ap, ◌∙◌, subst,
  String, Bool, true, false, not, ◌&&◌, ◌||◌, Option, none, some, List, [], ◌∷◌, ◌++◌, map, arith,
  eq_iff, length, length-append, keep_if, any_of, str_eq, str_eq_refl, ltb, leb, ◌==◌,
  if◌then◌else◌, Bool-cases, Option-cases, Result, ok, err,
}
use Prim.Native.String as Text
use edge_serverless_box.Base.Dict.{Dict}
use edge_serverless_box.Registry.{
  FunctionConfig, FunctionRegistry, empty_config, get_function_config,
}

-- `upper`; `re.sub` of the parameters of a pattern by named groups; and `re.match`, with the groups
-- of a match.
pub record Texts : Type 0 where
  pub upper : String → String
  pub name_groups : String → String
  pub re_match : String → String → Option (Dict String)

-- The function of a route: its name, or, in the old format, a mapping with the container's name.
pub data FunctionRef : Type 0 where
  named : String → FunctionRef
  inline : Option String → FunctionConfig → FunctionRef

pub record Route : Type 0 where
  pub path : Option String
  pub method : Option String
  pub function : Option FunctionRef

abbrev pub text_or_empty : Option String → String
text_or_empty none = ""
text_or_empty (some t) = t

pub record RouteMatcher : Type 0 where
  pub function_registry : FunctionRegistry
  pub routing_config : List Route

-- What reading the configuration ends with: no file, a text that is no YAML, or its `routes`.
pub data LoadedRoutes : Type 0 where
  no_file malformed : LoadedRoutes
  loaded_routes : Option (List Route) → LoadedRoutes

abbrev routes_or_empty : Option (List Route) → List Route
routes_or_empty none = []
routes_or_empty (some routes) = routes

-- `load_routing_config`
unfoldable pub load_routing_config : LoadedRoutes → List Route
load_routing_config no_file = []
load_routing_config malformed = []
load_routing_config (loaded_routes routes) = routes_or_empty routes

pub record Match : Type 0 where
  pub target_container : Option String
  pub path_params : Dict String
  pub route_path : Option String
  pub function_config : FunctionConfig

abbrev pub no_match : Match
no_match = record {
  target_container = none;
  path_params = [];
  route_path = none;
  function_config = empty_config;
}

abbrev config_or_empty : Option FunctionConfig → FunctionConfig
config_or_empty none = empty_config
config_or_empty (some c) = c

-- The target container and the configuration of a route's function.
unfoldable pub target_of : FunctionRegistry → Option FunctionRef → String × FunctionConfig
target_of r none = ("", empty_config)
target_of r (some (named name)) = (name, config_or_empty (get_function_config r name))
target_of r (some (inline container config)) = (text_or_empty container, config)

module _ (texts : Texts) where
  unfoldable pub path_to_regex : String → String
  path_to_regex pattern = Text.◌++◌ "^" (Text.◌++◌ (texts.name_groups pattern) "$")

  -- The groups of a route that has the request's method and matches its path.
  unfoldable pub groups_of : String → String → Route → Option (Dict String)
  unfolding path_to_regex
  groups_of request_path request_method route =
      if str_eq (texts.upper request_method) (texts.upper (text_or_empty route.method))
      then texts.re_match (path_to_regex (text_or_empty route.path)) request_path
      else none

  abbrev pub matched : FunctionRegistry → Route → Dict String → Match
  matched r route groups = record {
    target_container = some (target_of r route.function).0;
    path_params = groups;
    route_path = some (text_or_empty route.path);
    function_config = (target_of r route.function).1;
  }

  abbrev pub or_rest : FunctionRegistry → Route → Option (Dict String) → Match → Match
  or_rest r route none rest = rest
  or_rest r route (some groups) rest = matched r route groups

  -- The loop over the routes.
  unfoldable pub match_routes : FunctionRegistry → List Route → String → String → Match
  unfolding groups_of target_of
  match_routes r [] request_path request_method = no_match
  match_routes r (route ∷ routes) request_path request_method =
      or_rest r route (groups_of request_path request_method route)
        (match_routes r routes request_path request_method)

  abbrev loaded : List Route → LoadedRoutes → List Route
  loaded [] file = load_routing_config file
  loaded (route ∷ routes) file = route ∷ routes

  -- `match_route`; an empty configuration is loaded anew, `file` being what the file then has.
  unfoldable pub match_route : LoadedRoutes → RouteMatcher → String → String → RouteMatcher × Match
  match_route file m request_path request_method =
      let routes = loaded m.routing_config file in
      (
        record m { routing_config = routes },
        match_routes m.function_registry routes request_path request_method,
      )

pub record TargetFunction : Type 0 where
  pub container_name : String
  pub path_params : Dict String
  pub route_path : Option String
  pub function_config : FunctionConfig

abbrev target_with : Match → Option String → Result ℕ TargetFunction
target_with found none = err 404
target_with found (some container) =
    if str_eq container ""
    then err 404
    else ok (record {
      container_name = container;
      path_params = found.path_params;
      route_path = found.route_path;
      function_config = found.function_config;
    })

-- `resolve_lambda_target`, over what `match_route` found; `err` has the status of the exception.
unfoldable pub resolve_lambda_target : Match → Result ℕ TargetFunction
resolve_lambda_target found = target_with found found.target_container

abbrev user_or_error : Option String → Result ℕ String
user_or_error none = err 401
user_or_error (some user) = if str_eq user "" then err 401 else ok user

-- `verify_authorization`; `verify_token` decodes the header to the user, if it can.
unfoldable pub verify_authorization : (String → Option String) → Option String → Result ℕ String
verify_authorization verify_token none = err 401
verify_authorization verify_token (some header) =
    if str_eq header "" then err 401 else user_or_error (verify_token header)
