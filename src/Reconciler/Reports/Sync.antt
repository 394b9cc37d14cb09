-- ===== src/Reconciler/Reports/Sync.antt =====
-- The reports of a whole round.
use hydra_operator.Base.{
  String, ◌<>◌, none, some, ◌≡◌, refl, List, ◌∷◌, ok, err, is_ok, count_if, arith, true,
}
use hydra_operator.Wire.{DesiredState}
use hydra_operator.Kube.Calls.{http_call, cluster_status}
use hydra_operator.Kube.Env.{Env, CanSend, Session, ◌>>=◌, or_return, unless, perform}
use hydra_operator.Hydra.Client.{
  get_desired_state, put_cluster_status, report, cluster_path, send, build_request,
}
use hydra_operator.Reconciler.Manager.{
  ManagerConfig, reachable, unreachable, reconcile_policy, reconcile_namespaces,
  reconcile_containers, sync_once,
}
use hydra_operator.Reconciler.Ownership.Policies.{reconcile_policy-Keeps}
use hydra_operator.Reconciler.Reports.Defs.{
  Sent, reports, Allows-Reported, cluster_url, put_cluster_status-reports,
}
use hydra_operator.Reconciler.Reports.Namespaces.{
  outcomes, namespace_reports, reconcile_namespaces-reports,
}
use hydra_operator.Reconciler.Reports.Containers.{
  rounds, container_reports, is_running, reconcile_containers-reports,
}

module _ (env : Env) (cfg : ManagerConfig) where
  -- The sessions in which the two loops of a round begin.
  abbrev pub before_namespaces : DesiredState → Session env.World → Session env.World
  before_namespaces state s = (reconcile_policy env cfg state.security_policy s).1

  abbrev pub before_containers : DesiredState → Session env.World → Session env.World
  before_containers state s =
      (reconcile_namespaces env cfg state.namespaces (before_namespaces state s)).1

  -- What a round reports of a desired state that was pulled in the session `s`.
  abbrev pub round_total : DesiredState → Session env.World → List Sent → List Sent
  round_total state s before =
      let results = outcomes env cfg state.namespaces (before_namespaces state s) in
      let done = rounds env cfg state.containers (before_containers state s) in
      (
        cluster_url cfg.hydra,
        cluster_status (record {
          status = "reachable";
          namespaces_synced = count_if is_ok results;
          containers_ready = count_if (is_running env cfg) done;
        }),
      )
      ∷ container_reports env cfg state.containers done
          (namespace_reports env cfg state.namespaces results before)

  module _ (can : CanSend env) where
    get_desired_state-reports :
        (s : Session env.World) → reports (get_desired_state env cfg.hydra s).1.log ≡ reports s.log
    unfolding get_desired_state send unless perform build_request ◌>>=◌ or_return
    get_desired_state-reports s = ground arith

    -- When requests can be built and Hydra's desired state cannot be pulled, the whole round is two
    -- requests: the one that failed, and one that reports the cluster as unreachable. The API server is not called.
    pub sync_once-unreachable :
        (s : Session env.World) (e : String)
        → (get_desired_state env cfg.hydra s).0 ≡ err e
        → (sync_once env cfg s).1.log
          ≡ http_call (
              build_request cfg.hydra "PUT"
                (cluster_path cfg.hydra "/status")
                (some (
                  cluster_status (record {
                    status = "unreachable";
                    namespaces_synced = 0;
                    containers_ready = 0;
                  })))
                true)
            ∷ http_call
                (build_request cfg.hydra "GET" (cluster_path cfg.hydra "/desired-state") none true)
            ∷ s.log
    unfolding sync_once or_return ◌>>=◌ get_desired_state put_cluster_status report send unless
        perform
    sync_once-unreachable s e h = ground (
      arith,
      can.builds "GET" (cfg.hydra.base_url <> cluster_path cfg.hydra "/desired-state"),
      can.builds "PUT" (cfg.hydra.base_url <> cluster_path cfg.hydra "/status"),
      can.marshals (cluster_status unreachable),
    )

    -- When requests can be built and a desired state is pulled, the round reports every namespace,
    -- then every container, each after those of its domains that have an ID, and then the cluster as
    -- reachable, with the number of namespaces reported as synced and of containers reported as
    -- running.
    pub sync_once-reports :
        (s : Session env.World) (state : DesiredState)
        → (get_desired_state env cfg.hydra s).0 ≡ ok state
        → reports (sync_once env cfg s).1.log
          ≡ round_total state (get_desired_state env cfg.hydra s).1 (reports s.log)
    unfolding sync_once or_return ◌>>=◌
    sync_once-reports s state h =
        let t = (get_desired_state env cfg.hydra s).1 in
        let u = before_namespaces state t in
        let v = before_containers state t in
        ground (
          arith,
          get_desired_state-reports s,
          (reconcile_policy-Keeps env (Allows-Reported env.lower_wide (reports t.log)) cfg
                state.security_policy).holds_after
              t refl,
          reconcile_namespaces-reports env cfg can state.namespaces u,
          reconcile_containers-reports env cfg can state.containers v,
          put_cluster_status-reports env can cfg.hydra
              (reachable (reconcile_namespaces env cfg state.namespaces u).0
                (reconcile_containers env cfg state.containers v).0)
              (reconcile_containers env cfg state.containers v).1,
        )
