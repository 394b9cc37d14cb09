-- ===== src/Reconciler/Convergence/Round.antt =====
-- Rounds whose desired state is known, from what its loop over the containers comes to.
use hydra_operator.Base.{String, ◌≡◌, ◌∙◌, ℕ, Option, List, [], ◌∷◌, ok, All}
use hydra_operator.Wire
use hydra_operator.Wire.{DesiredState}
use hydra_operator.Kube.Env.{Env, Session, Action, ◌>>=◌, ◌>>◌, pure}
use hydra_operator.Kube.Leaves.{Leaves, or_return_known}
use hydra_operator.Hydra.Client.{get_desired_state, put_cluster_status}
use hydra_operator.Reconciler.Naming.{ksvc_name_for}
use hydra_operator.Reconciler.Manager.{
  ManagerConfig, sync_container, sync_containers, reconcile_containers, reconcile_namespaces,
  reconcile_policy, reachable, sync_once,
}
use hydra_operator.Reconciler.Convergence.Defs.{Free, Undisturbed, Apart, AllApart, FreeContainer}
use hydra_operator.Reconciler.Convergence.Loops.{put_cluster_status-Leaves, sync_containers-Leaves}

module _ (env : Env) (cfg : ManagerConfig) where
  pub after_state :
      (s : Session env.World) (state : DesiredState)
      → (get_desired_state env cfg.hydra s).0 ≡ ok state
      → sync_once env cfg s
        ≡ (do
          reconcile_policy env cfg state.security_policy
          synced ← reconcile_namespaces env cfg state.namespaces
          ready ← reconcile_containers env cfg state.containers
          put_cluster_status env cfg.hydra (reachable synced ready)
          pure tt)
            (get_desired_state env cfg.hydra s).1
  unfolding sync_once
  after_state s state = or_return_known _ _ _ s state

-- One object for each container, of which nothing else is told, and which the container's own part
-- of the loop makes as wanted.
module _ (env : Env) (cfg : ManagerConfig) {V : Type 0}
    (seen : String → String → env.World → Option V) (but : String → String → Free)
    (wanted : Wire.Container → Option V)
    (u : (ns name : String) → Undisturbed env (seen ns name) (but ns name)) where
  abbrev pub name : Wire.Container → String
  name c = ksvc_name_for env.lower_wide c.id

  abbrev pub InPlace : env.World → Wire.Container → Type 0
  InPlace w c = seen c.namespace_k8s_name (name c) w ≡ wanted c

  InPlace-kept :
      {A : Type 0} (containers : List Wire.Container) (m : Action env.World A)
      (s : Session env.World)
      → ((ns k : String) → Leaves (seen ns k) m)
      → All (InPlace s.world) containers
      → All (InPlace (m s).1.world) containers
  InPlace-kept [] m s leaves there = tt
  InPlace-kept (c ∷ containers) m s leaves (one, rest) =
      ((leaves _ _).same s ∙ one, InPlace-kept containers m s leaves rest)

  module _
      (settles : (c : Wire.Container) (s : Session env.World)
        → InPlace (sync_container env cfg c s).1.world c)
      (apart : (c d : Wire.Container)
        → Apart env.lower_wide c d
        → FreeContainer env.lower_wide (but c.namespace_k8s_name (name c)) d) where
    free_from :
        (c : Wire.Container) (containers : List Wire.Container)
        → All (Apart env.lower_wide c) containers
        → All (FreeContainer env.lower_wide (but c.namespace_k8s_name (name c))) containers
    free_from c [] others = tt
    free_from c (d ∷ containers) (other, others) = (apart c d other, free_from c containers others)

    sync_containers-InPlace :
        (containers : List Wire.Container) (n : ℕ) (s : Session env.World)
        → AllApart env.lower_wide containers
        → All (InPlace (sync_containers env cfg n containers s).1.world) containers
    unfolding sync_containers ◌>>=◌
    sync_containers-InPlace [] n s others = tt
    sync_containers-InPlace (c ∷ containers) n s (other, others) = (
      (sync_containers-Leaves env cfg (u _ _) _ containers (free_from c containers other)).same _
          ∙ settles c s,
      sync_containers-InPlace containers _ _ others,
    )

    containers_reported-InPlace :
        (synced : ℕ) (containers : List Wire.Container) (s : Session env.World)
        → AllApart env.lower_wide containers
        → All
            (InPlace
              ((do
                ready ← reconcile_containers env cfg containers
                put_cluster_status env cfg.hydra (reachable synced ready)
                pure tt)
                s).1.world)
            containers
    unfolding reconcile_containers ◌>>=◌ pure
    containers_reported-InPlace synced containers s others =
        InPlace-kept containers
          (put_cluster_status env cfg.hydra
            (reachable synced (sync_containers env cfg 0 containers s).0))
          (sync_containers env cfg 0 containers s).1
          (λ ns k. put_cluster_status-Leaves env cfg (u ns k) _)
          (sync_containers-InPlace containers 0 s others)

    pub sync_once-InPlace :
        (s : Session env.World) (state : DesiredState)
        → (get_desired_state env cfg.hydra s).0 ≡ ok state
        → AllApart env.lower_wide state.containers
        → All (InPlace (sync_once env cfg s).1.world) state.containers
    unfolding ◌>>=◌
    sync_once-InPlace s state received others =
        rw (after_state env cfg s state received)
          (containers_reported-InPlace _ state.containers _ others)
