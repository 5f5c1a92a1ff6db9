-- ===== src/Base/Dict.antt =====
-- Python's `dict` with texts as keys: an association list in insertion order.
use edge_serverless_box.Base.{
  String, ◌≡◌, refl, Option, none, some, List, [], ◌∷◌, arith, eq_iff, str_eq, if◌then◌else◌,
}

abbrev pub Dict {ℓ} : Type ℓ → Type ℓ
Dict V = List (String × V)

module _ {ℓ} {V : Type ℓ} where
  -- d.get(k)
  unfoldable pub lookup : String → Dict V → Option V
  lookup k [] = none
  lookup k ((j, v) ∷ d) = if str_eq j k then some v else lookup k d

  -- d[k] = v: an old key keeps its place, a new one goes to the end.
  unfoldable pub insert : String → V → Dict V → Dict V
  insert k v [] = (k, v) ∷ []
  insert k v ((j, w) ∷ d) = if str_eq j k then (j, v) ∷ d else (j, w) ∷ insert k v d

  -- d.pop(k, None)
  unfoldable pub erase : String → Dict V → Dict V
  erase k [] = []
  erase k ((j, w) ∷ d) = if str_eq j k then erase k d else (j, w) ∷ erase k d

  pub lookup-insert :
      (k j : String) (v : V) (d : Dict V)
      → lookup j (insert k v d) ≡ (if str_eq k j then some v else lookup j d)
  unfolding lookup insert
  lookup-insert k j v [] = refl
  lookup-insert k j v ((i, w) ∷ d) =
      ground (arith, eq_iff k j, eq_iff i k, eq_iff i j, lookup-insert k j v d)

  pub lookup-erase :
      (k j : String) (d : Dict V) → lookup j (erase k d) ≡ (if str_eq k j then none else lookup j d)
  unfolding lookup erase
  lookup-erase k j [] = ground arith
  lookup-erase k j ((i, w) ∷ d) =
      ground (arith, eq_iff k j, eq_iff i k, eq_iff i j, lookup-erase k j d)

  -- d.update(e)
  unfoldable pub update : Dict V → Dict V → Dict V
  update d [] = d
  update d ((k, v) ∷ e) = update (insert k v d) e

  -- Python's `dict` holds a key once.
  abbrev pub Unique : Dict V → Type ℓ
  Unique [] = Unit
  Unique ((k, v) ∷ d) = (lookup k d ≡ none) × Unique d

  abbrev pub or_else : Option V → Option V → Option V
  or_else none y = y
  or_else (some x) y = some x

  pub or_else-none : (x : Option V) → or_else x none ≡ x
  or_else-none none = refl
  or_else-none (some v) = refl

  pub lookup-update :
      (j : String) (d e : Dict V)
      → Unique e
      → lookup j (update d e) ≡ or_else (lookup j e) (lookup j d)
  unfolding lookup update
  lookup-update j d [] u = refl
  lookup-update j d ((k, v) ∷ e) u =
      ground (arith, lookup-update j (insert k v d) e u.1, lookup-insert k j v d, eq_iff k j)
