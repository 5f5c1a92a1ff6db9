-- ===== src/Client/Tests.antt =====
-- Runs of services/gateway/client.py.
use edge_serverless_box.Base.{◌≡◌, refl, ◌∙◌, String, none, some, [], str_eq_refl, err}
use edge_serverless_box.Base.Dict.{Dict, lookup, insert, erase, lookup-insert, lookup-erase}
use edge_serverless_box.Client.{
  HostCache, function_not_found_error, answered, ensure_container_remote,
}
use edge_serverless_box.Client.Flights.{
  Flights, joins, led, table, step, Reach, here, next, start, Reach-single_flight,
}

-- A cache that never drops an entry.
abbrev plain_cache : HostCache (Dict String)
plain_cache = record {
  get = λ now k c. lookup k c;
  set = λ now k v c. insert k v c;
  delete = λ k c. erase k c;
  get-set = λ now k v c. lookup-insert k k v c ∙ (rw (str_eq_refl k));
  get-delete = λ now k c. lookup-erase k k c ∙ (rw (str_eq_refl k));
}

missing_function : ensure_container_remote (answered 404 none) ≡ err function_not_found_error
unfolding ensure_container_remote
missing_function = refl

-- Task 0 leads the request for "echo".
abbrev leading : Flights (Dict String)
leading = step plain_cache (start plain_cache (some [])) (joins 0 "echo")

leading-Reach : Reach plain_cache (start plain_cache (some [])) leading
leading-Reach = next here (joins 0 "echo") tt

Reach-single_flight_example :
    led "echo" leading.leaders ≡ table (lookup "echo" leading.client.inflight)
Reach-single_flight_example = Reach-single_flight plain_cache (some []) leading "echo" leading-Reach
