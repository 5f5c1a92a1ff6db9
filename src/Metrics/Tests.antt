-- ===== src/Metrics/Tests.antt =====
-- Runs of the metrics endpoint of services/gateway/main.py.
use edge_serverless_box.Base.{◌≡◌, refl, String, some, [], ◌∷◌, str_eq, if◌then◌else◌}
use edge_serverless_box.Base.Int.{pos}
use edge_serverless_box.Worker.{WorkerInfo}
use edge_serverless_box.Metrics.{
  ContainerMetrics, MetricsAnswer, raises, replies, get_container_metrics, collect,
  service_unavailable, reply_with, list_container_metrics,
}

abbrev worker : String → WorkerInfo
worker i = record {
  id = i;
  name = "lambda-echo-1";
  ip_address = "";
  port = 8080;
  created_at = 0;
  last_used_at = 0;
}

abbrev measures : String → ContainerMetrics
measures i = record {
  container_id = i;
  function_name = "echo";
  container_name = "lambda-echo-1";
  state = "RUNNING";
  memory_current = 1024;
  memory_max = 4096;
  oom_events = 0;
  cpu_usage_ns = 7;
  exit_code = pos 0;
  restart_count = 0;
  exit_time = 0;
  collected_at = 100;
}

-- Only container "a" has metrics.
abbrev answer : String → MetricsAnswer
answer i = if str_eq i "a" then replies (some (measures i)) else raises

none_measured : list_container_metrics answer (worker "b" ∷ []) ≡ service_unavailable
unfolding list_container_metrics collect reply_with get_container_metrics
none_measured = refl
