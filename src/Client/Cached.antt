-- ===== src/Client/Cached.antt =====
-- The cache of services/gateway/client.py, over what its library promises.
use edge_serverless_box.Base.{ℕ, ◌≡◌, ap, String, false, none, some, str_eq, ok}
use edge_serverless_box.Client.{
  HostCache, OrchestratorClient, hit, look, join_with, join, resolve, invalidate_cache,
}

module _ {C : Type 0} (ops : HostCache C) where
  look-resolve :
      (now : ℕ) (name h : String) (f : ℕ) (s : OrchestratorClient C) (c : C)
      → s.cache ≡ some c
      → str_eq h "" ≡ false
      → look ops now name (resolve ops now name f (ok h) s) ≡ some h
  unfolding look resolve
  look-resolve now name h f s c present host = rw present (rw (ops.get-set now name h c) (rw host))

  -- With a cache, a host, not empty, that a request has just brought is a hit for the next caller,
  -- which makes no request; and once the function is invalidated, no host is found for it.
  pub resolve-join :
      (now : ℕ) (name h : String) (f : ℕ) (s : OrchestratorClient C) (c : C)
      → s.cache ≡ some c
      → str_eq h "" ≡ false
      → (join ops now name (resolve ops now name f (ok h) s)
          ≡ (resolve ops now name f (ok h) s, hit h))
        × (look ops now name (invalidate_cache ops name s) ≡ none)
  unfolding join join_with look invalidate_cache
  resolve-join now name h f s c present host = (
    ap (join_with ops name (resolve ops now name f (ok h) s))
        (look-resolve now name h f s c present host),
    rw present (rw (ops.get-delete now name c)),
  )
