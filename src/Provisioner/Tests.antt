-- ===== src/Provisioner/Tests.antt =====
-- Runs of tools/provisioner/main.py.
use edge_serverless_box.Base.{
  ℕ, zero, suc, ◌≡◌, refl, sym, ap, String, Bool, true, false, ◌||◌, Option, none, some, List, [],
  ◌∷◌, any_of, str_eq, if◌then◌else◌,
}
use mathlib.Core.Option.{none-ne-some, some-injective}
use edge_serverless_box.Base.Chain.{all_of}
use edge_serverless_box.Http.Value.{null, text, truthy, end}
use edge_serverless_box.Sam.Resources.{Table}
use edge_serverless_box.Provisioner.{
  Reply, responds, refuses, wait_for_service, is_listed, provision_s3, throughput, indexes,
  params_of, create_tables, provision_dynamodb,
}
use edge_serverless_box.Provisioner.Created.{IsStore, is_settled, provision_s3-settled}

-- A service that has the names of its buckets, and refuses one that it has.
abbrev create : String → List String → Option (List String)
create name names = if is_listed name names then none else some (name ∷ names)

create-IsStore : IsStore (List String) create (λ names. names)
unfolding any_of
create-IsStore = record {
  created = λ name other s after e. created (is_listed name s) name other s after e;
}
  where
    created :
        (b : Bool) (name other : String) (s after : List String)
        → (if b then none else some (name ∷ s)) ≡ some after
        → is_listed other after ≡ (str_eq name other || is_listed other s)
    created true name other s after e = absurd (none-ne-some after e)
    created false name other s after e = ap (is_listed other) (sym (some-injective _ _ e))

provision_s3-settled_example :
    let done =
      provision_s3
        (List String)
        create
        (some ("logs" ∷ []))
        ("files" ∷ "logs" ∷ [])
        ("logs" ∷ []) in
    (all_of (is_settled (List String) create (λ s. s) create-IsStore done) ("files" ∷ "logs" ∷ [])
      ≡ true)
    × ((other : String) → is_listed other ("logs" ∷ []) ≡ true → is_listed other done.0 ≡ true)
    × (all_of (λ b. is_listed b done.0) ("files" ∷ "logs" ∷ []) ≡ true
        → provision_s3 (List String) create (some done.0) ("files" ∷ "logs" ∷ []) done.0
          ≡ (done.0, []))
provision_s3-settled_example =
    provision_s3-settled (List String) create (λ names. names) create-IsStore ("logs" ∷ [])
      ("files" ∷ "logs" ∷ []) ("logs" ∷ []) (λ other e. e)

-- A service that refuses two requests.
abbrev slow_start : ℕ → Reply
slow_start zero = refuses
slow_start (suc zero) = refuses
slow_start (suc (suc n)) = responds

started : wait_for_service slow_start 30 0 ≡ (some true, 2)
unfolding wait_for_service
started = refl

abbrev table : Table
table = record {
  table_name = "users";
  key_schema = text "id";
  attribute_definitions = null;
  global_secondary_indexes = null;
  billing_mode = text "PAY_PER_REQUEST";
  provisioned_throughput = null;
}

-- A table that is paid per request has no throughput among its parameters.
per_request : throughput (λ n. true) table ≡ some end
unfolding throughput
per_request = refl

created_once :
    provision_dynamodb
      (λ n. true)
      (List String)
      (λ params s. some ("made" ∷ s))
      none
      (table ∷ [])
      []
    ≡ ("made" ∷ [], true)
unfolding provision_dynamodb create_tables params_of throughput indexes truthy any_of
created_once = refl
