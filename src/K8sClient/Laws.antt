-- ===== src/K8sClient/Laws.antt =====
-- When the clients can be built.
use hydra_operator.Base.{◌≡◌, ◌↔◌, ok, arith}
use hydra_operator.K8sClient.{ClientGo, Clients, new_for_config}

module _ (g : ClientGo) (cfg : g.RestConfig) where
  -- The clients are built exactly if each of the four constructors succeeds on the configuration, and
  -- then they are the four that were constructed.
  new_for_config_iff :
      (c : Clients g)
      → (new_for_config g cfg ≡ ok c) ↔ (
          (g.core_for_config cfg ≡ ok c.core)
          × (g.knative_for_config cfg ≡ ok c.knative)
          × (g.route_for_config cfg ≡ ok c.route)
          × (g.dynamic_for_config cfg ≡ ok c.dynamic))
  unfolding new_for_config
  new_for_config_iff c =
      (λ h. (ground arith, ground arith, ground arith, ground arith), λ h. ground arith)
