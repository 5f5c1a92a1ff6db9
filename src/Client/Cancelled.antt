-- ===== src/Client/Cancelled.antt =====
-- What becomes of the shared future of services/gateway/client.py if its leader is cancelled.
use edge_serverless_box.Base.{ℕ, ◌<◌, ◌≡◌, Bool, false, any_of, ◌==◌}
use edge_serverless_box.Client.{HostCache}
use edge_serverless_box.Client.Flights.{Flights, answering}

module _ {C : Type 0} (ops : HostCache C) where
  -- Whether a future is done.
  abbrev pub is_done : ℕ → Flights C → Bool
  is_done f s = any_of (λ p. p.0 == f) s.client.settled

  -- No leader is left that could answer the future.
  pub record Stranded (f : ℕ) (s : Flights C) : Type 0 where
    pub unanswered : answering f s.leaders ≡ 0
    pub old : f < s.client.futures
    pub pending : is_done f s ≡ false
