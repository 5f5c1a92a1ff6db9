-- ===== src/Events/Values.antt =====
-- Headers and query parameters with several values, of services/gateway/core/event_builder.py.
use edge_serverless_box.Base.{
  ◌≡◌, refl, ap, ◌∙◌, String, Bool, true, false, Option, none, some, List, [], ◌∷◌, ◌++◌, map,
  arith, eq_iff, keep_if, any_of, str_eq, if◌then◌else◌,
}
use edge_serverless_box.Base.Dict.{Dict, lookup, insert, lookup-insert}
use edge_serverless_box.Events.{getlist, last_or_empty, collect_values, values_of}

-- Whether a name occurs.
abbrev pub occurs : String → List (String × String) → Bool
occurs key pairs = any_of (λ p. str_eq p.0 key) pairs

collect_values-lookup :
    (key : String) (keys all : List (String × String)) (single : Dict String)
    (multi : Dict (List String))
    → let found = collect_values keys all (single, multi) in
      (lookup key found.0
        ≡ (if occurs key keys then some (last_or_empty (getlist key all)) else lookup key single))
      × (lookup key found.1
          ≡ (if occurs key keys then some (getlist key all) else lookup key multi))
unfolding collect_values any_of
collect_values-lookup key [] all single multi = (refl, refl)
collect_values-lookup key ((k, v) ∷ keys) all single multi =
    let ih =
      collect_values-lookup key keys all (insert k (last_or_empty (getlist k all)) single)
        (insert k (getlist k all) multi) in
    (
      ground
          (arith, ih.0, lookup-insert k key (last_or_empty (getlist k all)) single, eq_iff k key),
      ground (arith, ih.1, lookup-insert k key (getlist k all) multi, eq_iff k key),
    )

abbrev is_full : List String → Bool
is_full [] = false
is_full (v ∷ vs) = true

-- The values that stand under a name, in the order in which they come.
abbrev pub under : String → List (String × String) → List String
under key pairs = map (λ (p : String × String). p.1) (keep_if (λ p. str_eq p.0 key) pairs)

getlist-under :
    (key : String) (pairs : List (String × String)) → getlist key pairs ≡ under key pairs
unfolding getlist keep_if
getlist-under key [] = refl
getlist-under key ((k, v) ∷ pairs) = ground (arith, getlist-under key pairs)

-- A list ends with its last value.
abbrev pub EndsWith : String → List String → Type 0
EndsWith last values = (before : List String) × (values ≡ before ++ last ∷ [])

last-EndsWith : (v : String) (vs : List String) → EndsWith (last_or_empty (v ∷ vs)) (v ∷ vs)
last-EndsWith v [] = ([], refl)
last-EndsWith v (w ∷ ws) =
    let (before, e) = last-EndsWith w ws in (v ∷ before, ap (λ (xs : List String). v ∷ xs) e)

-- What the event has under a name whose values are these: nothing, or the last and all of them.
abbrev pub Holds : List String → Option String → Option (List String) → Type 0
Holds [] single multi = (single ≡ none) × (multi ≡ none)
Holds (v ∷ vs) single multi =
    (last : String) × (EndsWith last (v ∷ vs) × ((single ≡ some last) × (multi ≡ some (v ∷ vs))))

occurs-under :
    (key : String) (pairs : List (String × String)) → occurs key pairs ≡ is_full (under key pairs)
unfolding keep_if any_of
occurs-under key [] = refl
occurs-under key ((k, v) ∷ pairs) = ground (arith, occurs-under key pairs)

-- The event has each name that occurs with its last value, and with all of its values in the order
-- in which they came; a name that does not occur has neither.
pub values_of-lookup :
    (key : String) (pairs : List (String × String))
    → Holds (under key pairs) (lookup key (values_of pairs).0) (lookup key (values_of pairs).1)
unfolding values_of lookup
values_of-lookup key pairs = told (under key pairs) refl
  where
    single :
        (vs : List String)
        → under key pairs ≡ vs
        → lookup key (values_of pairs).0 ≡ (if is_full vs then some (last_or_empty vs) else none)
    single vs e =
        (collect_values-lookup key pairs pairs [] []).0
        ∙ ap (λ b. if b then some (last_or_empty (getlist key pairs)) else none)
            (occurs-under key pairs ∙ ap is_full e)
        ∙ ap (λ xs. if is_full vs then some (last_or_empty xs) else none)
            (getlist-under key pairs ∙ e)

    multi :
        (vs : List String)
        → under key pairs ≡ vs
        → lookup key (values_of pairs).1 ≡ (if is_full vs then some vs else none)
    multi vs e =
        (collect_values-lookup key pairs pairs [] []).1
        ∙ ap (λ b. if b then some (getlist key pairs) else none)
            (occurs-under key pairs ∙ ap is_full e)
        ∙ ap (λ xs. if is_full vs then some xs else none) (getlist-under key pairs ∙ e)

    told :
        (vs : List String)
        → under key pairs ≡ vs
        → Holds vs (lookup key (values_of pairs).0) (lookup key (values_of pairs).1)
    told [] e = (single [] e, multi [] e)
    told (v ∷ vs) e =
        (last_or_empty (v ∷ vs), (last-EndsWith v vs, (single (v ∷ vs) e, multi (v ∷ vs) e)))
