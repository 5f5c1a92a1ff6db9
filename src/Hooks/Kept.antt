-- ===== src/Hooks/Kept.antt =====
-- What VictoriaLogs receives of a line that
-- tools/generator/runtime/site-packages/sitecustomize.py forwards.
use edge_serverless_box.Base.{
  ◌≡◌, inl, inr, refl, ap, ◌∙◌, String, true, false, Option, none, some, arith, eq_iff, str_eq,
  Bool-cases,
}
use edge_serverless_box.Http.Value.{
  Json, text, object, Fields, end, field, get, has_key, pop_key, get-set_key, has_key-get,
  default_key, default_key-get, default_key-default,
}
use edge_serverless_box.Hooks.{Codec, Context, get_current_trace_id}
use edge_serverless_box.Hooks.Forward.{
  default_id, moved_time, with_time, completed, log_entry, payload, send_to_victorialogs,
}

get-pop_key : (j k : String) (fs : Fields) → str_eq j k ≡ false → get k (pop_key j fs) ≡ get k fs
unfolding get pop_key
get-pop_key j k end apart = refl
get-pop_key j k (field i w fs) apart =
    ground (arith, get-pop_key j k fs apart, eq_iff i j, eq_iff i k, eq_iff j k)

default_id-get :
    (j k : String) (o : Option String) (v : Json) (fs : Fields)
    → get k fs ≡ some v
    → get k (default_id j o fs) ≡ some v
default_id-get j k none v fs e = e
default_id-get j k (some i) v fs e = elim (Bool-cases (str_eq i "")) [
  | inl blank ↦ rw blank e
  | inr full ↦ rw full (default_key-get j k (text i) v fs e)
]

moved_time-get :
    (now k : String) (o : Option Json) (v : Json) (fs : Fields)
    → get k fs ≡ some v
    → str_eq "timestamp" k ≡ false
    → str_eq "_time" k ≡ false
    → get k (moved_time now o fs) ≡ some v
moved_time-get now k none v fs e apart other = get-set_key "_time" k (text now) fs ∙ rw other e
moved_time-get now k (some w) v fs e apart other =
    get-set_key "_time" k w (pop_key "timestamp" fs)
    ∙ rw other (get-pop_key "timestamp" k fs apart ∙ e)

with_time-get :
    (now k : String) (v : Json) (fs : Fields)
    → get k fs ≡ some v
    → str_eq "timestamp" k ≡ false
    → get k (with_time now fs) ≡ some v
unfolding with_time
with_time-get now k v fs e apart = elim (Bool-cases (has_key "_time" fs)) [
  | inl there ↦ rw there e
  | inr missing ↦ rw missing (elim (Bool-cases (str_eq "_time" k)) [
    | inl same ↦ absurd (clash same missing)
    | inr other ↦ moved_time-get now k (get "timestamp" fs) v fs e apart other
  ])
]
  where
    clash : str_eq "_time" k ≡ true → has_key "_time" fs ≡ false → ⊥
    clash same missing = ground (arith, has_key-get k fs v e, eq_iff "_time" k)

-- A line that is a JSON mapping is sent as a mapping. That has each field of the line, unchanged,
-- but for a timestamp; and it has the container's name if the line has none.
pub send-keeps :
    (codec : Codec) (upper : String → String) (name : String) (c : Context) (now line : String)
    (entry : Fields)
    → codec.loads line ≡ some (object entry)
    → (sent : Fields) × ((send_to_victorialogs codec upper name c now line ≡ some (object sent))
        × (((k : String) (v : Json)
              → get k entry ≡ some v
              → str_eq "timestamp" k ≡ false
              → get k sent ≡ some v)
            × (has_key "container_name" entry ≡ false
                → get "container_name" sent ≡ some (text name))))
unfolding send_to_victorialogs payload log_entry completed
send-keeps codec upper name c now line entry is_object = (
  completed codec upper name c now entry,
  (
    ap (λ o. payload codec upper name c now (log_entry codec upper name now line o)) is_object,
    (
      kept,
      λ missing.
          rest "container_name" (text name) (default_key "container_name" (text name) entry)
            (default_key-default "container_name" (text name) entry missing) refl,
    ),
  ),
)
  where
    rest :
        (k : String) (v : Json) (fs : Fields)
        → get k fs ≡ some v
        → str_eq "timestamp" k ≡ false
        → get k (
            with_time now (
              default_id "aws_request_id" c.current_request_id (
                default_id "trace_id"
                  (get_current_trace_id c)
                  (default_key "job" (text "lambda") fs))))
          ≡ some v
    rest k v fs e apart =
        with_time-get now k v _
          (default_id-get "aws_request_id" k c.current_request_id v _ (
            default_id-get "trace_id" k (get_current_trace_id c) v _
              (default_key-get "job" k (text "lambda") v fs e)))
          apart

    kept :
        (k : String) (v : Json)
        → get k entry ≡ some v
        → str_eq "timestamp" k ≡ false
        → get k (completed codec upper name c now entry) ≡ some v
    kept k v e apart =
        rest k v (default_key "container_name" (text name) entry)
          (default_key-get "container_name" k (text name) v entry e) apart
