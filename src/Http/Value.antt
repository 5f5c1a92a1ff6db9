-- ===== src/Http/Value.antt =====
-- JSON values, as Python's `json` hands them to services/gateway/core/utils.py and
-- services/gateway/services/lambda_invoker.py. A number is kept as its numeral.
use edge_serverless_box.Base.{
  String, Bool, true, false, not, ◌||◌, Option, none, some, str_eq, if◌then◌else◌, ◌≡◌, refl, arith,
  eq_iff, Bool-cases, inl, inr, str_eq_refl, ◌∙◌,
}
use mathlib.Core.Option.{none-ne-some}
use edge_serverless_box.Base.Chain.{not_taken}

mutual
  pub data Json : Type 0 where
    null : Json
    boolean : Bool → Json
    number : String → Json
    text : String → Json
    array : Items → Json
    object : Fields → Json

  pub data Items : Type 0 where
    nil : Items
    cons : Json → Items → Items

  pub data Fields : Type 0 where
    end : Fields
    field : String → Json → Fields → Fields

-- `data.get(key)`
unfoldable pub get : String → Fields → Option Json
get k end = none
get k (field j v fs) = if str_eq j k then some v else get k fs

-- `key in data`
unfoldable pub has_key : String → Fields → Bool
has_key k end = false
has_key k (field j v fs) = str_eq j k || has_key k fs

-- `bool(value)`, from whether a numeral is of a number that is not 0.
unfoldable pub truthy : (String → Bool) → Json → Bool
truthy is_nonzero null = false
truthy is_nonzero (boolean b) = b
truthy is_nonzero (number n) = is_nonzero n
truthy is_nonzero (text t) = not (str_eq t "")
truthy is_nonzero (array nil) = false
truthy is_nonzero (array (cons v vs)) = true
truthy is_nonzero (object end) = false
truthy is_nonzero (object (field k v rest)) = true

-- `data[key] = value`: an old key keeps its place.
unfoldable pub set_key : String → Json → Fields → Fields
set_key k v end = field k v end
set_key k v (field j w fs) = if str_eq j k then field j v fs else field j w (set_key k v fs)

-- `data.pop(key)`, for the fields that are left
unfoldable pub pop_key : String → Fields → Fields
pop_key k end = end
pop_key k (field j w fs) = if str_eq j k then fs else field j w (pop_key k fs)

pub get-set_key :
    (k j : String) (v : Json) (fs : Fields)
    → get j (set_key k v fs) ≡ (if str_eq k j then some v else get j fs)
unfolding get set_key
get-set_key k j v end = refl
get-set_key k j v (field i w fs) =
    ground (arith, eq_iff k j, eq_iff i k, eq_iff i j, get-set_key k j v fs)

-- `if key not in entry: entry[key] = value`
unfoldable pub default_key : String → Json → Fields → Fields
unfolding has_key set_key
default_key key v entry = if has_key key entry then entry else set_key key v entry

pub has_key-get : (k : String) (fs : Fields) (v : Json) → get k fs ≡ some v → has_key k fs ≡ true
unfolding get has_key
has_key-get k end v e = absurd (none-ne-some v e)
has_key-get k (field j w fs) v e = elim (Bool-cases (str_eq j k)) [
  | inl here ↦ rw here
  | inr there ↦ rw there (has_key-get k fs v (not_taken _ _ _ _ there e))
]

pub default_key-get :
    (j k : String) (w v : Json) (fs : Fields)
    → get k fs ≡ some v
    → get k (default_key j w fs) ≡ some v
unfolding default_key
default_key-get j k w v fs e =
    ground (arith, get-set_key j k w fs, has_key-get k fs v e, eq_iff j k)

pub default_key-default :
    (j : String) (w : Json) (fs : Fields)
    → has_key j fs ≡ false
    → get j (default_key j w fs) ≡ some w
unfolding default_key
default_key-default j w fs missing = rw missing (get-set_key j j w fs ∙ rw (str_eq_refl j))
