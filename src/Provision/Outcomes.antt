-- ===== src/Provision/Outcomes.antt =====
-- What `provision` of services/gateway/services/grpc_provision.py ends with.
use edge_serverless_box.Base.{
  ℕ, ◌+◌, ◌≡◌, Bool, true, false, Option, none, some, List, [], ◌∷◌, Result, ok, err,
}
use edge_serverless_box.Worker.{WorkerInfo}
use edge_serverless_box.Readiness.{Waited}
use edge_serverless_box.Provision.{
  EnsureReply, Network, ProvisionError, agent_error, not_ready, new_worker,
}

-- The new worker's port, watched from the first attempt on.
abbrev pub Watched : ℕ → Network → WorkerInfo → Bool → Type 0
Watched timeout net w = Waited (net.clock 0 + timeout) net.clock (net.connects w.ip_address w.port)

abbrev pub Ends :
    ℕ → Network → Option EnsureReply → Result ProvisionError (List WorkerInfo) → Type 0
Ends timeout net none (err agent_error) = Unit
Ends timeout net none (err not_ready) = ⊥
Ends timeout net none (ok ws) = ⊥
Ends timeout net (some e) (ok ws) =
    (ws ≡ new_worker e ∷ []) × Watched timeout net (new_worker e) true
Ends timeout net (some e) (err not_ready) = Watched timeout net (new_worker e) false
Ends timeout net (some e) (err agent_error) = ⊥
