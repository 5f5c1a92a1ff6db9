-- ===== src/Pool/Drain.antt =====
-- `drain` of services/gateway/services/container_pool.py while a provision is under way.
use edge_serverless_box.Base.{ℕ, ◌≡◌, refl, List, [], ◌∷◌, arith, length}
use edge_serverless_box.Base.Int.{pos, negsuc}
use edge_serverless_box.Worker.{WorkerInfo}
use edge_serverless_box.Pool.{
  ContainerPool, reserved, attempt, drain, provisioned, provision_failed,
}

-- `drain` empties the pool and hands out every worker of its ledger, and all waiting tasks wake;
-- but a provision that ends well after it makes the count of provisions -1, since only the branch
-- for failures tests the count: from then on the pool reserves a slot for one worker more than
-- its capacity.
pub drain-provisioned :
    (p : ContainerPool) (w : WorkerInfo) (ws full : List WorkerInfo) (task start now : ℕ)
    → length full ≡ p.max_capacity
    → let q = (drain p).0 in
      let late = (provisioned (w ∷ ws) q).0 in
      ((drain p).1 ≡ p.all_workers)
      × (q.idle_workers ≡ [])
      × (q.all_workers ≡ [])
      × (q.blocked ≡ [])
      × (late.provisioning_count ≡ negsuc 0)
      × ((attempt task start now (record late { all_workers = full })).1 ≡ reserved)
      × ((provision_failed q).provisioning_count ≡ pos 0)
unfolding drain provisioned provision_failed attempt
drain-provisioned p w ws full task start now h = (refl, refl, refl, refl, refl, ground arith, refl)
