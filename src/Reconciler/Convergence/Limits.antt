-- ===== src/Reconciler/Convergence/Limits.antt =====
-- After a round, every managed namespace has the limits that Hydra asks for.
use hydra_operator.Base.{
  String, ◌≡◌, ◌≢◌, ◌∙◌, ℕ, Option, true, List, [], ◌∷◌, ok, All, ◌==◌, is_ok, suc, if◌then◌else◌,
  inl, Memᴰ, All-at,
}
use hydra_operator.Wire
use hydra_operator.Wire.{DesiredState}
use hydra_operator.Kube.Objects.{ResourceList}
use hydra_operator.Kube.Env.{Env, Session, Action, ◌>>=◌, ◌>>◌, pure}
use hydra_operator.Kube.Laws.{Obeys, Answers}
use hydra_operator.Kube.Leaves.{Leaves, Leaves-after, Leaves-bind}
use hydra_operator.Hydra.Client.{get_desired_state, put_cluster_status}
use hydra_operator.Reconciler.Namespace
use hydra_operator.Reconciler.Namespace.{resource_quota_name}
use hydra_operator.Reconciler.Namespace.Settles.{quota_name, quota_hard, wanted_limits}
use hydra_operator.Reconciler.Namespace.Progress.{
  namespace_name, namespace_version, quota_version, limits-progress,
}
use hydra_operator.Reconciler.Manager.{
  ManagerConfig, sync_namespaces, sync_containers, reconcile_namespaces, reconcile_containers,
  reachable, sync_once,
}
use hydra_operator.Reconciler.Convergence.Defs.{
  Undisturbed, AllNamed, FreeContainer, FreeNamespace, but_quota, all_free,
}
use hydra_operator.Reconciler.Convergence.Loops.{
  put_cluster_status-Leaves, report_namespace-Leaves, sync_namespaces-Leaves,
  sync_containers-Leaves,
}
use hydra_operator.Reconciler.Convergence.Round.{after_state}

module _ (env : Env) (cfg : ManagerConfig)
    (answers : Answers env.namespaces namespace_name namespace_version)
    (quotas : Answers env.resource_quotas quota_name quota_version)
    (seen : String → String → env.World → Option ResourceList)
    (laws : Obeys env.resource_quotas seen quota_name quota_hard)
    (u : (ns name : String) → Undisturbed env (seen ns name) (but_quota ns name)) where
  -- The namespace has the limits that Hydra asks for, if it is one that the operator manages.
  abbrev pub IsLimited : env.World → Wire.Namespace → Type 0
  IsLimited w n =
      (n.mode == "managed") ≡ true → seen n.k8s_name resource_quota_name w ≡ wanted_limits env n

  others_free :
      (n : Wire.Namespace) (namespaces : List Wire.Namespace)
      → All (λ m. m.k8s_name ≢ n.k8s_name) namespaces
      → All (FreeNamespace (but_quota n.k8s_name resource_quota_name)) namespaces
  others_free n [] others = tt
  others_free n (m ∷ namespaces) (other, others) = (inl other, others_free n namespaces others)

  containers_free :
      (n : Wire.Namespace) (containers : List Wire.Container)
      → All (FreeContainer env.lower_wide (but_quota n.k8s_name resource_quota_name)) containers
  containers_free n [] = tt
  containers_free n (c ∷ containers) =
      ((tt, tt, all_free c.custom_domains), containers_free n containers)

  IsLimited-kept :
      {A : Type 0} (namespaces : List Wire.Namespace) (m : Action env.World A)
      (s : Session env.World)
      → ((n : Wire.Namespace) → Leaves (seen n.k8s_name resource_quota_name) m)
      → All (IsLimited s.world) namespaces
      → All (IsLimited (m s).1.world) namespaces
  IsLimited-kept [] m s leaves there = tt
  IsLimited-kept (n ∷ namespaces) m s leaves (one, rest) =
      (λ managed. (leaves n).same s ∙ one managed, IsLimited-kept namespaces m s leaves rest)

  sync_namespaces-limits :
      (namespaces : List Wire.Namespace) (synced : ℕ) (s : Session env.World)
      → AllNamed namespaces
      → All (IsLimited (sync_namespaces env cfg synced namespaces s).1.world) namespaces
  unfolding sync_namespaces ◌>>=◌
  sync_namespaces-limits [] synced s named = tt
  sync_namespaces-limits (n ∷ namespaces) synced s (others, named) = (
    λ managed.
        Leaves-after (Namespace.reconcile env n) _ s (λ r.
          Leaves-bind _ _ (report_namespace-Leaves env cfg (u _ _) n.id r) (λ _.
            sync_namespaces-Leaves env cfg (u _ _) (if is_ok r then suc synced else synced)
              namespaces (others_free n namespaces others)))
        ∙ (limits-progress env answers quotas n seen laws s managed).1,
    sync_namespaces-limits namespaces _ _ named,
  )

  limits-reported :
      (namespaces : List Wire.Namespace) (containers : List Wire.Container) (s : Session env.World)
      → AllNamed namespaces
      → All
          (IsLimited
            ((do
              synced ← reconcile_namespaces env cfg namespaces
              ready ← reconcile_containers env cfg containers
              put_cluster_status env cfg.hydra (reachable synced ready)
              pure tt)
              s).1.world)
          namespaces
  unfolding reconcile_namespaces reconcile_containers ◌>>=◌ pure
  limits-reported namespaces containers s named =
      let reconciled = sync_namespaces env cfg 0 namespaces s in
      IsLimited-kept namespaces
        (do
          ready ← sync_containers env cfg 0 containers
          put_cluster_status env cfg.hydra (reachable reconciled.0 ready))
        reconciled.1
        (λ n.
          Leaves-bind _ _
            (sync_containers-Leaves env cfg (u _ _) 0 containers (containers_free n containers))
            (λ ready. put_cluster_status-Leaves env cfg (u _ _) (reachable reconciled.0 ready)))
        (sync_namespaces-limits namespaces 0 s named)

  sync_once-IsLimited :
      (s : Session env.World) (state : DesiredState)
      → (get_desired_state env cfg.hydra s).0 ≡ ok state
      → AllNamed state.namespaces
      → All (IsLimited (sync_once env cfg s).1.world) state.namespaces
  unfolding ◌>>=◌
  sync_once-IsLimited s state received named =
      rw (after_state env cfg s state received)
        (limits-reported state.namespaces state.containers _ named)

  -- When the desired state is received and names no namespace twice, the APIs for Namespaces and
  -- ResourceQuotas answer, the latter obeys its laws, and nothing but a call for a ResourceQuota
  -- changes that ResourceQuota, then after `syncOnce` each managed namespace of the state has no
  -- quota if Hydra leaves every setting out, and otherwise the limits of the settings that denote a
  -- quantity and of a positive number of pods.
  pub sync_once-limits :
      (s : Session env.World) (state : DesiredState)
      → (get_desired_state env cfg.hydra s).0 ≡ ok state
      → AllNamed state.namespaces
      → (n : Wire.Namespace) → Memᴰ n state.namespaces
      → (n.mode == "managed") ≡ true
      → seen n.k8s_name resource_quota_name (sync_once env cfg s).1.world ≡ wanted_limits env n
  sync_once-limits s state received named n member =
      All-at (IsLimited (sync_once env cfg s).1.world) member
        (sync_once-IsLimited s state received named)
