-- ===== src/K8sClient.antt =====
-- internal/k8sclient/client.go: the clients of the API server. The constructors are client-go's.
use hydra_operator.Base.{String, ◌<>◌, Result, ok, err}
mod Laws

pub record ClientGo : Type 1 where
  pub RestConfig : Type 0
  pub Core : Type 0
  pub Knative : Type 0
  pub Route : Type 0
  pub Dynamic : Type 0
  pub in_cluster_config : Result String RestConfig
  pub build_config_from_flags : String → String → Result String RestConfig
  pub core_for_config : RestConfig → Result String Core
  pub knative_for_config : RestConfig → Result String Knative
  pub route_for_config : RestConfig → Result String Route
  pub dynamic_for_config : RestConfig → Result String Dynamic

module _ (g : ClientGo) where
  pub record Clients : Type 0 where
    pub core : g.Core
    pub knative : g.Knative
    pub route : g.Route
    pub dynamic : g.Dynamic

  unfoldable pub new_for_config : g.RestConfig → Result String Clients
  new_for_config cfg = elim (g.core_for_config cfg) [
    | err e ↦ err ("k8sclient: core clientset: " <> e)
    | ok core ↦ elim (g.knative_for_config cfg) [
      | err e ↦ err ("k8sclient: knative clientset: " <> e)
      | ok knative ↦ elim (g.route_for_config cfg) [
        | err e ↦ err ("k8sclient: openshift route clientset: " <> e)
        | ok route ↦ elim (g.dynamic_for_config cfg) [
          | err e ↦ err ("k8sclient: dynamic client: " <> e)
          | ok dynamic ↦
              ok (record { core = core; knative = knative; route = route; dynamic = dynamic })
        ]
      ]
    ]
  ]

  unfoldable pub new_in_cluster : Result String Clients
  new_in_cluster = elim g.in_cluster_config [
    | err e ↦ err ("k8sclient: in-cluster config: " <> e)
    | ok cfg ↦ new_for_config cfg
  ]

  unfoldable pub new_from_kubeconfig : String → Result String Clients
  new_from_kubeconfig path = elim (g.build_config_from_flags "" path) [
    | err e ↦ err ("k8sclient: load kubeconfig " <> path <> ": " <> e)
    | ok cfg ↦ new_for_config cfg
  ]
