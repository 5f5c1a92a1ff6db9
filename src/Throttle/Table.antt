-- ===== src/Throttle/Table.antt =====
-- The table of throttles, `ConcurrencyManager` of services/gateway/core/concurrency.py.
use edge_serverless_box.Base.{
  ◌≡◌, ◌⊎◌, inl, inr, refl, ap, String, Option, none, some, arith, eq_iff, str_eq, str_eq_refl,
  if◌then◌else◌,
}
use edge_serverless_box.Base.Dict.{Dict, lookup, insert, lookup-insert}
use edge_serverless_box.Throttle.{
  FunctionThrottle, ConcurrencyManager, limit_of, new_throttle, keep_or_make, get_throttle,
}

lookup-insert_self :
    (name : String) (t : FunctionThrottle) (d : Dict FunctionThrottle)
    → lookup name (insert name t d) ≡ some t
lookup-insert_self name t d = rw (lookup-insert name name t d) (rw (str_eq_refl name))

get_throttle_at :
    (m : ConcurrencyManager) (name : String) (found : Option FunctionThrottle)
    → lookup name m.throttles ≡ found
    → get_throttle m name ≡ keep_or_make m name found
unfolding get_throttle
get_throttle_at m name found e = ap (keep_or_make m name) e

keep_or_make_lem :
    (m : ConcurrencyManager) (name other : String) (found : Option FunctionThrottle)
    → lookup name m.throttles ≡ found
    → let (m', t) = keep_or_make m name found in
      (get_throttle m' name ≡ (m', t))
      × ((lookup name m.throttles ≡ some t)
          ⊎ ((lookup name m.throttles ≡ none)
              × (t ≡ new_throttle (limit_of m name) m.default_timeout)))
      × (lookup other m'.throttles
          ≡ (if str_eq name other then some t else lookup other m.throttles))
keep_or_make_lem m name other (some t) e =
    unfold keep_or_make in
    (get_throttle_at m name (some t) e, inl e, ground (arith, eq_iff name other, e))
keep_or_make_lem m name other none e =
    let t = new_throttle (limit_of m name) m.default_timeout in
    let m' : ConcurrencyManager = record m { throttles = insert name t m.throttles } in
    unfold keep_or_make in
    (
      get_throttle_at m' name (some t) (lookup-insert_self name t m.throttles),
      inr (e, refl),
      lookup-insert name other t m.throttles,
    )

-- The first use of a name makes its throttle, with the limit that the configuration sets and no
-- slot taken; each later use finds that same throttle; and no other name's throttle changes.
pub get_throttle_lem :
    (m : ConcurrencyManager) (name other : String)
    → let (m', t) = get_throttle m name in
      (get_throttle m' name ≡ (m', t))
      × ((lookup name m.throttles ≡ some t)
          ⊎ ((lookup name m.throttles ≡ none)
              × (t ≡ new_throttle (limit_of m name) m.default_timeout)))
      × (lookup other m'.throttles
          ≡ (if str_eq name other then some t else lookup other m.throttles))
unfolding get_throttle
get_throttle_lem m name other = keep_or_make_lem m name other (lookup name m.throttles) refl
