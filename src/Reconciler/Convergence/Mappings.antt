-- ===== src/Reconciler/Convergence/Mappings.antt =====
-- After a round, every custom domain is mapped to the service of its container.
use hydra_operator.Base.{
  String, ◌≡◌, ◌≢◌, ◌∙◌, ℕ, suc, if◌then◌else◌, Option, some, List, [], ◌∷◌, ok, All, All-map,
  All-intro, inr,
}
use hydra_operator.Base.Dict.{Dict}
use hydra_operator.Wire
use hydra_operator.Wire.{CustomDomain, DesiredState}
use hydra_operator.Kube.Objects.{Reference}
use hydra_operator.Kube.Env.{Env, Session, Action, ◌>>=◌, ◌>>◌, pure}
use hydra_operator.Kube.Laws.{Obeys, Answers}
use hydra_operator.Kube.Leaves.{Leaves, or_return_known}
use hydra_operator.Hydra.Client.{get_desired_state, put_cluster_status}
use hydra_operator.Reconciler.Naming.{ksvc_name_for}
use hydra_operator.Reconciler.Container
use hydra_operator.Reconciler.Container.Settles.{service_name}
use hydra_operator.Reconciler.Container.Progress.{service_version, reconcile-answered}
use hydra_operator.Reconciler.Route
use hydra_operator.Reconciler.Domain
use hydra_operator.Reconciler.Domain.{build_mapping}
use hydra_operator.Reconciler.Domain.Settles.{mapping_name, mapping_view}
use hydra_operator.Reconciler.Domain.Progress.{mapping_version, mapping-progress}
use hydra_operator.Reconciler.Manager.{
  ManagerConfig, sync_container, finish_container, sync_containers, reconcile_containers, reachable,
  sync_once,
}
use hydra_operator.Reconciler.Convergence.Defs.{
  Elsewhere, Undisturbed, AllHosted, AllHostedApart, FreeContainer, but_mapping,
}
use hydra_operator.Reconciler.Convergence.Parts.{domains-Leaves}
use hydra_operator.Reconciler.Convergence.Loops.{
  put_cluster_status-Leaves, sync_containers-Leaves, after_domains, after_domains-Leaves,
}
use hydra_operator.Reconciler.Convergence.Round.{after_state}

-- The labels of the operator, and a reference to the Knative Service of the given name.
abbrev pub mapped_to : String → Dict String × Reference
mapped_to service = (
  ("app.kubernetes.io/managed-by", "hydra-operator") ∷ [],
  record { api_version = "serving.knative.dev/v1"; kind = "Service"; name = service },
)

module _ (env : Env) (cfg : ManagerConfig)
    (answers : Answers env.domain_mappings mapping_name mapping_version)
    (seen : String → String → env.World → Option (Dict String × Reference))
    (laws : Obeys env.domain_mappings seen mapping_name mapping_view)
    (u : (ns name : String) → Undisturbed env (seen ns name) (but_mapping ns name)) where
  -- The hostname is mapped to the service in the namespace.
  abbrev pub IsMapped : String → String → env.World → CustomDomain → Type 0
  IsMapped ns k w d = seen ns d.hostname w ≡ some (mapped_to k)

  abbrev pub AllMapped : env.World → Wire.Container → Type 0
  AllMapped w c =
      All (IsMapped c.namespace_k8s_name (ksvc_name_for env.lower_wide c.id) w) c.custom_domains

  hostnames_free :
      (ns : String) (d : CustomDomain) (domains : List CustomDomain)
      → All (λ e. e.hostname ≢ d.hostname) domains
      → All (λ e. Elsewhere ns d.hostname ns e.hostname) domains
  hostnames_free ns d [] others = tt
  hostnames_free ns d (e ∷ domains) (other, others) =
      (inr other, hostnames_free ns d domains others)

  reconcile_domains-IsMapped :
      (ns k : String) (domains : List CustomDomain) (s : Session env.World)
      → AllHosted domains
      → All (IsMapped ns k (Domain.reconcile_domains env ns k domains s).1.world) domains
  unfolding Domain.reconcile_domains Domain.build_mapping ◌>>=◌ pure
  reconcile_domains-IsMapped ns k [] s hosted = tt
  reconcile_domains-IsMapped ns k (d ∷ domains) s (others, hosted) = (
    (domains-Leaves env (u ns d.hostname) ns k domains (hostnames_free ns d domains others)).same _
        ∙ mapping-progress env answers ns d.hostname k seen laws s,
    reconcile_domains-IsMapped ns k domains _ hosted,
  )

  -- What was mapped stays so in an action that leaves each of the mappings.
  IsMapped-kept :
      (ns k : String) (domains : List CustomDomain) {A : Type 0} (m : Action env.World A)
      (s : Session env.World)
      → All (λ d. Leaves (seen ns d.hostname) m) domains
      → All (IsMapped ns k s.world) domains
      → All (IsMapped ns k (m s).1.world) domains
  IsMapped-kept ns k [] m s leaves there = tt
  IsMapped-kept ns k (d ∷ domains) m s (leave, leaves) (one, rest) =
      (leave.same s ∙ one, IsMapped-kept ns k domains m s leaves rest)

  module _ (services : Answers env.services service_name service_version) where
    sync_container-AllMapped :
        (c : Wire.Container) (s : Session env.World)
        → AllHosted c.custom_domains
        → AllMapped (sync_container env cfg c s).1.world c
    unfolding sync_container finish_container Domain.reconcile ◌>>=◌
    sync_container-AllMapped c s hosted =
        let (status, done) = reconcile-answered env services c s in
        let routed = Route.reconcile env c (Container.reconcile env c s).1 in
        let mapped = Domain.reconcile env c routed.1 in
        rw (or_return_known (Container.reconcile env c) _ _ s status done) (
          IsMapped-kept c.namespace_k8s_name (ksvc_name_for env.lower_wide c.id) c.custom_domains
            (after_domains env cfg c status routed.0 mapped.0) mapped.1
            (All-intro _
              (λ d.
                after_domains-Leaves env cfg (u c.namespace_k8s_name d.hostname) c status routed.0
                  mapped.0)
              c.custom_domains)
            (reconcile_domains-IsMapped c.namespace_k8s_name (ksvc_name_for env.lower_wide c.id)
              c.custom_domains routed.1 hosted))

    others_free :
        (ns : String) (domains : List CustomDomain) (containers : List Wire.Container)
        → All
            (λ d.
              All
                (λ x.
                  All
                    (λ y. Elsewhere ns x.hostname d.namespace_k8s_name y.hostname)
                    d.custom_domains)
                domains)
            containers
        → All
            (λ x. All (FreeContainer env.lower_wide (but_mapping ns x.hostname)) containers)
            domains
    others_free ns [] containers apart = tt
    others_free ns (x ∷ domains) containers apart = (
      All-map _ _ (λ d each. (tt, tt, each.0)) containers apart,
      others_free ns domains containers (All-map _ _ (λ d each. each.1) containers apart),
    )

    sync_containers-AllMapped :
        (containers : List Wire.Container) (n : ℕ) (s : Session env.World)
        → AllHostedApart containers
        → All (AllMapped (sync_containers env cfg n containers s).1.world) containers
    unfolding sync_containers ◌>>=◌
    sync_containers-AllMapped [] n s apart = tt
    sync_containers-AllMapped (c ∷ containers) n s (hosted, others, apart) =
        let one = sync_container env cfg c s in
        let ready = if one.0 then suc n else n in
        (
          IsMapped-kept c.namespace_k8s_name (ksvc_name_for env.lower_wide c.id) c.custom_domains
              (sync_containers env cfg ready containers) one.1
              (All-map _ _
                (λ d are_free.
                  sync_containers-Leaves env cfg (u c.namespace_k8s_name d.hostname) ready
                    containers are_free)
                c.custom_domains
                (others_free c.namespace_k8s_name c.custom_domains containers others))
              (sync_container-AllMapped c s hosted),
          sync_containers-AllMapped containers ready one.1 apart,
        )

    containers_reported-AllMapped :
        (synced : ℕ) (containers : List Wire.Container) (s : Session env.World)
        → AllHostedApart containers
        → All
            (AllMapped
              ((do
                ready ← reconcile_containers env cfg containers
                put_cluster_status env cfg.hydra (reachable synced ready)
                pure tt)
                s).1.world)
            containers
    unfolding reconcile_containers ◌>>=◌ pure
    containers_reported-AllMapped synced containers s apart =
        let (ready, after) = sync_containers env cfg 0 containers s in
        All-map (AllMapped after.world) _
          (λ c mapped.
            IsMapped-kept c.namespace_k8s_name (ksvc_name_for env.lower_wide c.id) c.custom_domains
              (put_cluster_status env cfg.hydra (reachable synced ready)) after
              (All-intro _
                (λ d.
                  put_cluster_status-Leaves env cfg (u c.namespace_k8s_name d.hostname)
                    (reachable synced ready))
                c.custom_domains)
              mapped)
          containers (sync_containers-AllMapped containers 0 s apart)

    -- When the desired state is received and names no hostname twice in a namespace, the APIs for
    -- Services and DomainMappings answer, the latter obeys its laws, and nothing but a call for a
    -- DomainMapping changes that DomainMapping, then after `syncOnce` every custom domain of every
    -- container has a DomainMapping in the container's namespace with the operator's label and a
    -- reference to the Knative Service of the container's name, whatever was reported of it.
    pub sync_once-mappings :
        (s : Session env.World) (state : DesiredState)
        → (get_desired_state env cfg.hydra s).0 ≡ ok state
        → AllHostedApart state.containers
        → All
            (λ c.
              All
                (λ d.
                  seen c.namespace_k8s_name d.hostname (sync_once env cfg s).1.world
                  ≡ some (mapped_to (ksvc_name_for env.lower_wide c.id)))
                c.custom_domains)
            state.containers
    unfolding ◌>>=◌
    sync_once-mappings s state received apart =
        rw (after_state env cfg s state received)
          (containers_reported-AllMapped _ state.containers _ apart)
