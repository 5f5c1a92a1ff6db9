-- ===== src/Routes/Tests.antt =====
-- Runs of services/gateway/services/route_matcher.py.
use edge_serverless_box.Base.{
  ◌≡◌, refl, String, ◌&&◌, none, some, [], ◌∷◌, str_eq, if◌then◌else◌, err,
}
use edge_serverless_box.Routes.{
  Texts, Route, RouteMatcher, LoadedRoutes, loaded_routes, load_routing_config, named, groups_of,
  path_to_regex, match_routes, match_route, resolve_lambda_target, target_of, verify_authorization,
}
use edge_serverless_box.Routes.First.{Explains, match_route-Explains}

-- Patterns without parameters, matched as they stand.
abbrev texts : Texts
texts = record {
  upper = λ t. if str_eq t "get" then "GET" else t;
  name_groups = λ t. t;
  re_match = λ regex t. if str_eq regex "^/echo$" && str_eq t "/echo" then some [] else none;
}

abbrev route : String → String → String → Route
route path method name = record {
  path = some path;
  method = some method;
  function = some (named name);
}

abbrev matcher : RouteMatcher
matcher = record {
  function_registry = record { registry = []; default_environment = none };
  routing_config = [];
}

abbrev file : LoadedRoutes
file = loaded_routes (
    some (
      route "/echo" "POST" "first"
      ∷ route "/echo" "get" "second"
      ∷ route "/echo" "GET" "third"
      ∷ []))

second_taken : (match_route texts file matcher "/echo" "GET").1.target_container ≡ some "second"
unfolding match_route match_routes load_routing_config groups_of path_to_regex target_of
second_taken = refl

not_found : resolve_lambda_target (match_route texts file matcher "/other" "GET").1 ≡ err 404
unfolding match_route match_routes load_routing_config groups_of path_to_regex target_of
    resolve_lambda_target
not_found = refl

unauthorized : verify_authorization (λ token. none) (some "Bearer x") ≡ err 401
unfolding verify_authorization
unauthorized = refl

match_route-Explains_example :
    let (m', found) = match_route texts file matcher "/echo" "GET" in
    (m'.function_registry ≡ matcher.function_registry)
    × Explains texts matcher.function_registry "/echo" "GET" m'.routing_config found
match_route-Explains_example = match_route-Explains texts file matcher "/echo" "GET"
