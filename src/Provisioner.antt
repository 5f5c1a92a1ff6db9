-- ===== src/Provisioner.antt =====
-- tools/provisioner/main.py: it creates the tables and buckets of a template in the local services.
pub mod Created
mod Tests
use edge_serverless_box.Base.{
  ℕ, zero, suc, ◌+◌, ◌-◌, ◌*◌, ◌≤◌, ◌<◌, ◌≡◌, ◌≢◌, ◌⊎◌, inl, inr, ◌↔◌, refl, sym, ap, ◌∙◌, subst,
  String, Bool, true, false, not, ◌&&◌, ◌||◌, Option, none, some, List, [], ◌∷◌, ◌++◌, map, arith,
  eq_iff, length, length-append, keep_if, any_of, str_eq, str_eq_refl, ltb, leb, ◌==◌,
  if◌then◌else◌, Bool-cases, Option-cases, Result, ok, err,
}
use edge_serverless_box.Base.Chain.{◌>>=◌}
use edge_serverless_box.Http.Value.{
  Json, null, boolean, number, text, array, object, Items, nil, cons, Fields, end, field, get,
  truthy,
}
use edge_serverless_box.Sam.Resources.{Table}
use edge_serverless_box.Sam.Template.{Template}

-- How a service answers a request: it responds, it refuses (`EndpointConnectionError`,
-- `ClientError`), or the client raises something else.
pub data Reply : Type 0 where
  responds : Reply
  refuses : Reply
  breaks : Reply

-- `wait_for_service`, for the replies to the requests from the `n`th on: the result, `none` if an
-- exception passes, and how many seconds it has slept.
unfoldable pub wait_for_service : (ℕ → Reply) → ℕ → ℕ → Option Bool × ℕ
wait_for_service replies zero n = (some false, 0)
wait_for_service replies (suc retries) n =
    let rest = wait_for_service replies retries (suc n) in go (replies n) rest
  where
    go : Reply → Option Bool × ℕ → Option Bool × ℕ
    go responds rest = (some true, 0)
    go refuses rest = (rest.0, suc rest.1)
    go breaks rest = (none, 0)

-- `name in names`
abbrev pub is_listed : String → List String → Bool
is_listed name names = any_of (λ n. str_eq n name) names

abbrev pub names_or_none : Option (List String) → List String
names_or_none none = []
names_or_none (some names) = names

module _ {ℓ} (Service : Type ℓ) (create : String → Service → Option Service) where
  -- A creation that fails is reported, and the next one tried.
  abbrev pub report :
      String → Option Service → Service → (Service → Service × List String) → Service × List String
  report name none before next = let (after, failed) = next before in (after, name ∷ failed)
  report name (some after) before next = next after

  -- The loop of `provision_s3`: the names that exist are those that were listed at the start. The
  -- result has the names whose creation is reported as failed.
  unfoldable pub create_buckets : List String → List String → Service → Service × List String
  create_buckets existing [] s = (s, [])
  create_buckets existing (name ∷ names) s =
      if is_listed name existing
      then create_buckets existing names s
      else report name (create name s) s (λ t. create_buckets existing names t)

  unfoldable pub provision_s3 : Option (List String) → List String → Service → Service × List String
  unfolding create_buckets
  provision_s3 listed buckets s = create_buckets (names_or_none listed) buckets s

abbrev one_unit : Json
one_unit =
    object (field "ReadCapacityUnits" (number "1") (field "WriteCapacityUnits" (number "1") end))

module _ (is_nonzero : String → Bool) where
  abbrev is_set : Option Json → Bool
  is_set none = false
  is_set (some v) = truthy is_nonzero v

  abbrev value_or : Option Json → Json → Json
  value_or none d = d
  value_or (some v) d = v

  -- `table_def["BillingMode"] == "PROVISIONED"`
  abbrev is_provisioned : Table → Bool
  is_provisioned t = is_text t.billing_mode
    where
      is_text : Json → Bool
      is_text (text mode) = str_eq mode "PROVISIONED"
      is_text other = false

  -- The units that a mapping must have, or one of each.
  abbrev units : Json → Option Json
  units (object fields) = get "ReadCapacityUnits" fields >>= λ reads.
      get "WriteCapacityUnits" fields >>= λ writes.
      some (object (field "ReadCapacityUnits" reads (field "WriteCapacityUnits" writes end)))
  units other = none

  unfoldable pub throughput : Table → Option Fields
  unfolding get truthy
  throughput t =
      if not (is_provisioned t)
      then some end
      else if truthy is_nonzero t.provisioned_throughput
      then (units t.provisioned_throughput >>= λ v. some (field "ProvisionedThroughput" v end))
      else some (field "ProvisionedThroughput" one_unit end)

  abbrev index_of : Bool → Json → Option Json
  index_of provisioned (object gsi) = get "IndexName" gsi >>= λ name.
      get "KeySchema" gsi >>= λ schema. get "Projection" gsi >>= λ projection. some (
        object (
          field "IndexName" name (
            field "KeySchema" schema (
              field "Projection" projection (
                if provisioned
                then field "ProvisionedThroughput"
                    (if is_set (get "ProvisionedThroughput" gsi)
                      then value_or (get "ProvisionedThroughput" gsi) null
                      else one_unit)
                    end
                else end)))))
  index_of provisioned other = none

  -- The loop over the secondary indexes.
  unfoldable pub indexes_of : Bool → Items → Option Items
  unfolding get truthy
  indexes_of provisioned nil = some nil
  indexes_of provisioned (cons gsi gsis) =
      let rest = indexes_of provisioned gsis in
      index_of provisioned gsi >>= λ v. rest >>= λ vs. some (cons v vs)

  -- To run over a mapping gives texts, which have no `["IndexName"]`; an empty one is not run over.
  abbrev index_items : Json → Option Items
  index_items (array gsis) = some gsis
  index_items other = none

  unfoldable pub indexes : Table → Option Fields
  unfolding truthy indexes_of
  indexes t =
      if truthy is_nonzero t.global_secondary_indexes
      then (index_items t.global_secondary_indexes >>= λ gsis.
          indexes_of (is_provisioned t) gsis >>= λ vs.
          some (field "GlobalSecondaryIndexes" (array vs) end))
      else some end

  abbrev join_fields : Fields → Fields → Fields
  join_fields end gs = gs
  join_fields (field k v fs) gs = field k v (join_fields fs gs)

  -- The parameters of `create_table`.
  unfoldable pub params_of : Table → Option Fields
  unfolding throughput indexes
  params_of t = throughput t >>= λ units. indexes t >>= λ gsis. some (
      field "TableName" (text t.table_name) (
        field "KeySchema" t.key_schema (
          field "AttributeDefinitions" t.attribute_definitions
            (field "BillingMode" t.billing_mode (join_fields units gsis)))))

  module _ {ℓ} (Service : Type ℓ) (create_table : Fields → Service → Option Service) where
    abbrev tried_table : Service → Option Service → Service
    tried_table before none = before
    tried_table before (some after) = after

    -- The loop of `provision_dynamodb`. A definition that lacks a part is an exception, which ends
    -- the loop; the service keeps what was created before.
    unfoldable pub create_tables : List String → List Table → Service → Service × Bool
    unfolding params_of
    create_tables existing [] s = (s, true)
    create_tables existing (t ∷ ts) s =
        if is_listed t.table_name existing
        then create_tables existing ts s
        else go (params_of t)
            (λ params. create_tables existing ts (tried_table s (create_table params s)))
      where
        go : Option Fields → (Fields → Service × Bool) → Service × Bool
        go none next = (s, false)
        go (some params) next = next params

    unfoldable pub provision_dynamodb : Option (List String) → List Table → Service → Service × Bool
    unfolding create_tables
    provision_dynamodb listed tables s = create_tables (names_or_none listed) tables s
