-- ===== src/Routes/First.antt =====
-- Which route services/gateway/services/route_matcher.py takes.
use edge_serverless_box.Base.{
  ◌≡◌, ◌≢◌, ◌⊎◌, arith, eq_iff, str_eq, Bool-cases, inl, inr, refl, ap, String, Option, none, some,
  List, [], ◌∷◌, ◌++◌,
}
use mathlib.Core.Option.{none-ne-some}
use edge_serverless_box.Base.Chain.{taken, not_taken}
use edge_serverless_box.Base.Dict.{Dict}
use edge_serverless_box.Registry.{FunctionRegistry}
use edge_serverless_box.Routes.{
  Texts, Route, Match, RouteMatcher, LoadedRoutes, no_match, groups_of, or_rest, text_or_empty,
  path_to_regex, target_of, match_routes, match_route,
}

module _ (texts : Texts) where
  -- The route has the request's method, and its pattern matches the path with these parameters.
  abbrev pub Fits : String → String → Route → Dict String → Type 0
  Fits path method route params =
      (texts.upper method ≡ texts.upper (text_or_empty route.method))
      × (texts.re_match (path_to_regex texts (text_or_empty route.path)) path ≡ some params)

  -- The route has another method, or its pattern does not match.
  abbrev pub Misses : String → String → Route → Type 0
  Misses path method route =
      (texts.upper method ≢ texts.upper (text_or_empty route.method))
      ⊎ (texts.re_match (path_to_regex texts (text_or_empty route.path)) path ≡ none)

  groups_of-Misses :
      (path method : String) (route : Route)
      → groups_of texts path method route ≡ none
      → Misses path method route
  unfolding groups_of
  groups_of-Misses path method route e =
      elim (Bool-cases (str_eq (texts.upper method) (texts.upper (text_or_empty route.method)))) [
        | inl same ↦ inr (ground (arith, same, e))
        | inr differs ↦ inl (λ same. ground (
          arith,
          eq_iff (texts.upper method) (texts.upper (text_or_empty route.method)),
          differs,
          same,
        ))
      ]

  groups_of-Fits :
      (path method : String) (route : Route) (params : Dict String)
      → groups_of texts path method route ≡ some params
      → Fits path method route params
  unfolding groups_of
  groups_of-Fits path method route params e =
      elim (Bool-cases (str_eq (texts.upper method) (texts.upper (text_or_empty route.method)))) [
        | inl same ↦ (
          (eq_iff (texts.upper method) (texts.upper (text_or_empty route.method))).0 same,
          taken _ _ _ _ same e,
        )
        | inr differs ↦ absurd (none-ne-some params (not_taken _ _ _ _ differs e))
      ]

  -- What the match of a route is.
  abbrev pub Tells : FunctionRegistry → Route → Dict String → Match → Type 0
  Tells r route params found =
      (found.path_params ≡ params)
      × (found.route_path ≡ some (text_or_empty route.path))
      × (found.target_container ≡ some (target_of r route.function).0)
      × (found.function_config ≡ (target_of r route.function).1)

  -- No route of the list fits the request.
  abbrev pub NoneFits : String → String → List Route → Type 0
  NoneFits path method [] = Unit
  NoneFits path method (route ∷ routes) = Misses path method route × NoneFits path method routes

  -- What was found among the routes, by the routes before the one that was taken.
  abbrev pub Explains : FunctionRegistry → String → String → List Route → Match → Type 0
  Explains r path method routes found =
      NoneFits path method routes × (found ≡ no_match)
      ⊎ (before : List Route) × (route : Route) × (after : List Route) × (groups : Dict String)
        × (routes ≡ before ++ route ∷ after)
        × NoneFits path method before
        × Fits path method route groups
        × Tells r route groups found

  extend :
      (r : FunctionRegistry) (path method : String) (route : Route) (routes : List Route)
      (found : Match)
      → Misses path method route
      → Explains r path method routes found
      → Explains r path method (route ∷ routes) found
  extend r path method route routes found misses (inl (fits, same)) = inl ((misses, fits), same)
  extend r path method route routes found misses
        (inr (before, taken, after, groups, split, fits, match, same)) =
      inr (
        route ∷ before,
        taken,
        after,
        groups,
        ap (λ rs. route ∷ rs) split,
        (misses, fits),
        match,
        same,
      )

  or_rest-Explains :
      (r : FunctionRegistry) (path method : String) (route : Route) (routes : List Route)
      (rest : Match) (groups : Option (Dict String))
      → groups_of texts path method route ≡ groups
      → Explains r path method routes rest
      → Explains r path method (route ∷ routes) (or_rest texts r route groups rest)
  or_rest-Explains r path method route routes rest none misses e =
      extend r path method route routes rest (groups_of-Misses path method route misses) e
  or_rest-Explains r path method route routes rest (some groups) fits e = inr (
    [],
    route,
    routes,
    groups,
    refl,
    tt,
    groups_of-Fits path method route groups fits,
    (refl, refl, refl, refl),
  )

  match_routes-Explains :
      (r : FunctionRegistry) (routes : List Route) (path method : String)
      → Explains r path method routes (match_routes texts r routes path method)
  unfolding match_routes
  match_routes-Explains r [] path method = inl (tt, refl)
  match_routes-Explains r (route ∷ routes) path method =
      or_rest-Explains r path method route routes (match_routes texts r routes path method)
        (groups_of texts path method route) refl (match_routes-Explains r routes path method)

  -- A request goes to the first route that has its method and whose pattern matches its path, with
  -- the parameters of that match; it finds nothing exactly if no route fits. A pattern
  -- matches as the library's `re_match` says. The routes are those in memory afterwards; the
  -- registry stays.
  pub match_route-Explains :
      (file : LoadedRoutes) (m : RouteMatcher) (path method : String)
      → let (m', found) = match_route texts file m path method in
        (m'.function_registry ≡ m.function_registry)
        × Explains m.function_registry path method m'.routing_config found
  unfolding match_route
  match_route-Explains file m path method =
      (refl, match_routes-Explains m.function_registry _ path method)
