-- ===== src/Metrics.antt =====
-- The metrics of containers: `list_container_metrics` of services/gateway/main.py, and
-- `get_container_metrics` of services/gateway/services/grpc_provision.py. The agent's answers are
-- parameters.
mod Tests
use edge_serverless_box.Base.{
  ℕ, zero, suc, ◌+◌, ◌-◌, ◌*◌, ◌≤◌, ◌<◌, ◌≡◌, ◌≢◌, ◌⊎◌, inl, inr, ◌↔◌, refl, sym, ap, ◌∙◌, subst,
  String, Bool, true, false, not, ◌&&◌, ◌||◌, Option, none, some, List, [], ◌∷◌, ◌++◌, map, arith,
  eq_iff, length, length-append, keep_if, any_of, str_eq, str_eq_refl, ltb, leb, ◌==◌,
  if◌then◌else◌, Bool-cases, Option-cases, Result, ok, err,
}
use edge_serverless_box.Base.Int.{ℤ}
use edge_serverless_box.Worker.{WorkerInfo}

-- `ContainerMetrics` of services/common/models/internal.py. The counters and times are not negative.
pub record ContainerMetrics : Type 0 where
  pub container_id : String
  pub function_name : String
  pub container_name : String
  pub state : String
  pub memory_current : ℕ
  pub memory_max : ℕ
  pub oom_events : ℕ
  pub cpu_usage_ns : ℕ
  pub exit_code : ℤ
  pub restart_count : ℕ
  pub exit_time : ℕ
  pub collected_at : ℕ

-- How the stub answers a request for metrics: it raises, or replies, perhaps with none.
pub data MetricsAnswer : Type 0 where
  raises : MetricsAnswer
  replies : Option ContainerMetrics → MetricsAnswer

-- `get_container_metrics`: an empty reply raises as well. `none` is an exception.
unfoldable pub get_container_metrics : MetricsAnswer → Option ContainerMetrics
get_container_metrics raises = none
get_container_metrics (replies metrics) = metrics

-- An item of the list: the metrics, or the container's id and name with the error.
pub data MetricsItem : Type 0 where
  measured : ContainerMetrics → MetricsItem
  unavailable : String → String → MetricsItem

abbrev pub item_of : WorkerInfo → Option ContainerMetrics → MetricsItem
item_of c none = unavailable c.id c.name
item_of c (some metrics) = measured metrics

abbrev failed_by : Option ContainerMetrics → ℕ → ℕ
failed_by none n = suc n
failed_by (some metrics) n = n

-- The loop over the containers and the results: the items, and the number of failures.
unfoldable pub collect : (String → MetricsAnswer) → List WorkerInfo → List MetricsItem × ℕ
unfolding get_container_metrics
collect answer [] = ([], 0)
collect answer (c ∷ cs) =
    let (items, failures) = collect answer cs in
    let result = get_container_metrics (answer c.id) in
    (item_of c result ∷ items, failed_by result failures)

-- The endpoint's replies: an empty list without a count, a list with the number of failures, or 503.
pub data MetricsReply : Type 0 where
  no_containers : MetricsReply
  listed : List MetricsItem → ℕ → MetricsReply
  service_unavailable : MetricsReply

unfoldable pub reply_with : ℕ → List MetricsItem × ℕ → MetricsReply
reply_with n (items, failures) =
    if failures == n then service_unavailable else listed items failures

unfoldable pub list_container_metrics : (String → MetricsAnswer) → List WorkerInfo → MetricsReply
unfolding collect reply_with
list_container_metrics answer [] = no_containers
list_container_metrics answer (c ∷ cs) = reply_with (length (c ∷ cs)) (collect answer (c ∷ cs))

abbrev pub is_fetched : Option ContainerMetrics → Bool
is_fetched none = false
is_fetched (some m) = true

-- Whether the metrics of a container can be fetched, and its item in the list.
abbrev pub fetched : (String → MetricsAnswer) → WorkerInfo → Bool
fetched answer c = is_fetched (get_container_metrics (answer c.id))

abbrev pub item : (String → MetricsAnswer) → WorkerInfo → MetricsItem
item answer c = item_of c (get_container_metrics (answer c.id))

failed_by_lem :
    (result : Option ContainerMetrics) (c : WorkerInfo) (kept : List WorkerInfo) (failures n : ℕ)
    → failures + length kept ≡ n
    → failed_by result failures + length (if is_fetched result then c ∷ kept else kept) ≡ suc n
failed_by_lem none c kept failures n e = omega arith
failed_by_lem (some m) c kept failures n e = omega arith

collect-items :
    (answer : String → MetricsAnswer) (cs : List WorkerInfo)
    → (collect answer cs).0 ≡ map (item answer) cs
unfolding collect
collect-items answer [] = refl
collect-items answer (c ∷ cs) = ap (λ items. item answer c ∷ items) (collect-items answer cs)

collect-failures :
    (answer : String → MetricsAnswer) (cs : List WorkerInfo)
    → (collect answer cs).1 + length (keep_if (fetched answer) cs) ≡ length cs
unfolding collect keep_if
collect-failures answer [] = refl
collect-failures answer (c ∷ cs) =
    failed_by_lem (get_container_metrics (answer c.id)) c (keep_if (fetched answer) cs)
      (collect answer cs).1 (length cs) (collect-failures answer cs)

reply_with_lem :
    (n well failures : ℕ) (items listing : List MetricsItem)
    → failures + well ≡ n
    → items ≡ listing
    → (well ≡ 0) × (reply_with n (items, failures) ≡ service_unavailable)
      ⊎ (0 < well) × (reply_with n (items, failures) ≡ listed listing (n - well))
unfolding reply_with
reply_with_lem n well failures items listing e same = ground arith

-- With containers, the endpoint replies 503 exactly if no container's metrics can be fetched.
-- Otherwise its reply has one item for each container, in order, and counts those that failed.
pub list_container_metrics_lem :
    (answer : String → MetricsAnswer) (c : WorkerInfo) (cs : List WorkerInfo)
    → let well = length (keep_if (fetched answer) (c ∷ cs)) in
      (well ≡ 0) × (list_container_metrics answer (c ∷ cs) ≡ service_unavailable)
      ⊎ (0 < well)
        × (list_container_metrics answer (c ∷ cs)
            ≡ listed (map (item answer) (c ∷ cs)) (length (c ∷ cs) - well))
unfolding list_container_metrics
list_container_metrics_lem answer c cs =
    reply_with_lem (length (c ∷ cs)) (length (keep_if (fetched answer) (c ∷ cs)))
      (collect answer (c ∷ cs)).1 (collect answer (c ∷ cs)).0 (map (item answer) (c ∷ cs))
      (collect-failures answer (c ∷ cs)) (collect-items answer (c ∷ cs))
