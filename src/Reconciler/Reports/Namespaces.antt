-- ===== src/Reconciler/Reports/Namespaces.antt =====
-- The reports of `reconcileNamespaces`.
use hydra_operator.Base.{
  ℕ, suc, ◌+◌, String, ◌≡◌, refl, List, [], ◌∷◌, Result, ok, err, is_ok, count_if, arith,
  if◌then◌else◌, ◌∙◌, ap,
}
use hydra_operator.Wire
use hydra_operator.Wire.{NamespaceSyncStatusRequest}
use hydra_operator.Kube.Calls.{namespace_status}
use hydra_operator.Kube.Env.{Env, CanSend, Session, ◌>>=◌}
use hydra_operator.Hydra.Client.{put_namespace_sync_status}
use hydra_operator.Reconciler.Namespace
use hydra_operator.Reconciler.Manager.{
  ManagerConfig, namespace_report, sync_namespaces, reconcile_namespaces,
}
use hydra_operator.Reconciler.Ownership.Cluster.{namespace-Keeps}
use hydra_operator.Reconciler.Reports.Defs.{
  Sent, reports, Allows-Reported, namespace_url, put_namespace_sync_status-reports,
}

abbrev pub Outcome : Type 0
Outcome = Result String (Unit {0})

-- What Hydra is to be told of a namespace.
abbrev pub told : Outcome → NamespaceSyncStatusRequest
told (ok _) = record { sync_status = "synced"; sync_error = "" }
told (err e) = record { sync_status = "error"; sync_error = e }

namespace_report-told : (r : Outcome) → namespace_report r ≡ told r
namespace_report-told (ok _) = refl
namespace_report-told (err e) = refl

module _ (env : Env) (cfg : ManagerConfig) where
  -- One round of the loop, and what the reconciler returned in each round of the whole loop.
  abbrev after_namespace : Wire.Namespace → Session env.World → Session env.World
  after_namespace ns s =
      let (r, t) = Namespace.reconcile env ns s in
      (put_namespace_sync_status env cfg.hydra ns.id (namespace_report r) t).1

  abbrev pub outcomes : List Wire.Namespace → Session env.World → List Outcome
  outcomes [] s = []
  outcomes (ns ∷ namespaces) s =
      (Namespace.reconcile env ns s).0 ∷ outcomes namespaces (after_namespace ns s)

  -- One report for each namespace, on top of those before.
  abbrev pub namespace_reports : List Wire.Namespace → List Outcome → List Sent → List Sent
  namespace_reports (ns ∷ namespaces) (r ∷ rs) before =
      namespace_reports namespaces rs
        ((namespace_url cfg.hydra ns.id, namespace_status (told r)) ∷ before)
  namespace_reports _ _ before = before

  module _ (can : CanSend env) where
    after_namespace-reports :
        (ns : Wire.Namespace) (s : Session env.World)
        → reports (after_namespace ns s).log
          ≡ (
            namespace_url cfg.hydra ns.id,
            namespace_status (told (Namespace.reconcile env ns s).0),
          )
            ∷ reports s.log
    after_namespace-reports ns s = cc (
      namespace_report-told (Namespace.reconcile env ns s).0,
      put_namespace_sync_status-reports env can cfg.hydra ns.id
          (namespace_report (Namespace.reconcile env ns s).0) (Namespace.reconcile env ns s).1,
      (namespace-Keeps env (Allows-Reported env.lower_wide (reports s.log)) ns).holds_after s refl,
    )

    sync_namespaces-reports :
        (n : ℕ) (namespaces : List Wire.Namespace) (s : Session env.World)
        → reports (sync_namespaces env cfg n namespaces s).1.log
          ≡ namespace_reports namespaces (outcomes namespaces s) (reports s.log)
    unfolding sync_namespaces ◌>>=◌
    sync_namespaces-reports n [] s = refl
    sync_namespaces-reports n (ns ∷ namespaces) s =
        sync_namespaces-reports (if is_ok (Namespace.reconcile env ns s).0 then suc n else n)
          namespaces (after_namespace ns s)
        ∙ ap (namespace_reports namespaces (outcomes namespaces (after_namespace ns s)))
            (after_namespace-reports ns s)

  sync_namespaces-count :
      (n : ℕ) (namespaces : List Wire.Namespace) (s : Session env.World)
      → (sync_namespaces env cfg n namespaces s).0 ≡ n + count_if is_ok (outcomes namespaces s)
  unfolding sync_namespaces ◌>>=◌
  sync_namespaces-count n [] s = omega arith
  sync_namespaces-count n (ns ∷ namespaces) s = ground (
    arith,
    sync_namespaces-count (suc n) namespaces (after_namespace ns s),
    sync_namespaces-count n namespaces (after_namespace ns s),
  )

  -- When requests can be built, the namespaces are reported in their order, each once and as `synced` exactly if its
  -- reconciliation succeeded, with the error's text if not; the count that goes into the cluster
  -- status is the number of those successes.
  pub reconcile_namespaces-reports :
      CanSend env
      → (namespaces : List Wire.Namespace) (s : Session env.World)
      → (reports (reconcile_namespaces env cfg namespaces s).1.log
          ≡ namespace_reports namespaces (outcomes namespaces s) (reports s.log))
        × ((reconcile_namespaces env cfg namespaces s).0 ≡ count_if is_ok (outcomes namespaces s))
  unfolding reconcile_namespaces
  reconcile_namespaces-reports can namespaces s = (
    sync_namespaces-reports can 0 namespaces s,
    omega (arith, sync_namespaces-count 0 namespaces s),
  )
