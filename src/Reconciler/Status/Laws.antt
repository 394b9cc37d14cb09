-- ===== src/Reconciler/Status/Laws.antt =====
-- The snapshot that is reported of a Knative Service.
use hydra_operator.Base.{
  String, false, ◌≡◌, ◌≢◌, ◌↔◌, refl, Option, none, some, List, [], ◌∷◌, arith, is_empty, eq_iff,
  not, ◌&&◌,
}
use hydra_operator.Wire.{RevisionEntry}
use hydra_operator.Kube.Objects.{Service}
use hydra_operator.Reconciler.Status.Defs.{
  contains, collect_revisions, ready_status, derive_container_status,
}

abbrev pub names : List RevisionEntry → List String
names [] = []
names (r ∷ revisions) = r.name ∷ names revisions

-- No name is listed twice.
abbrev pub IsDistinct : List String → Type 0
IsDistinct [] = Unit
IsDistinct (x ∷ xs) = (contains x xs ≡ false) × IsDistinct xs

-- A name is collected exactly if it occurs, is not empty, and has not been seen.
collect-contains :
    (traffic seen : List String) (x : String)
    → contains x (names (collect_revisions traffic seen))
      ≡ (contains x traffic && (not (is_empty x) && not (contains x seen)))
unfolding collect_revisions
collect-contains [] seen x = refl
collect-contains (t ∷ traffic) seen x =
    ground
      (arith, eq_iff t x, collect-contains traffic seen x, collect-contains traffic (t ∷ seen) x)

collect-IsDistinct :
    (traffic seen : List String) → IsDistinct (names (collect_revisions traffic seen))
unfolding collect_revisions
collect-IsDistinct [] seen = tt
collect-IsDistinct (t ∷ traffic) seen = ground (
  arith,
  eq_iff t t,
  collect-contains traffic (t ∷ seen) t,
  collect-IsDistinct traffic seen,
  collect-IsDistinct traffic (t ∷ seen),
)

-- The reported revisions are the non-empty names of the traffic targets, each listed once.
pub derive_container_status-revisions :
    (svc : Service)
    → IsDistinct (names (derive_container_status svc).revisions)
      × ((x : String)
          → contains x (names (derive_container_status svc).revisions)
            ≡ (contains x svc.status.traffic && not (is_empty x)))
unfolding derive_container_status
derive_container_status-revisions svc = (
  collect-IsDistinct svc.status.traffic [],
  λ x. ground (arith, collect-contains svc.status.traffic [] x),
)

deploying_ne_running : ◌≢◌ {A = String} "deploying" "running"
deploying_ne_running = ground (arith, eq_iff "deploying" "running")

deploying_ne_degraded : ◌≢◌ {A = String} "deploying" "degraded"
deploying_ne_degraded = ground (arith, eq_iff "deploying" "degraded")

degraded_ne_running : ◌≢◌ {A = String} "degraded" "running"
degraded_ne_running = ground (arith, eq_iff "degraded" "running")

running_ne_degraded : ◌≢◌ {A = String} "running" "degraded"
running_ne_degraded = ground (arith, eq_iff "running" "degraded")

true_ne_false : ◌≢◌ {A = String} "True" "False"
true_ne_false = ground (arith, eq_iff "True" "False")

ready_status-cases :
    (ready : Option String)
    → (((ready_status ready).0 ≡ "running") ↔ (ready ≡ some "True"))
      × (((ready_status ready).0 ≡ "degraded") ↔ (ready ≡ some "False"))
      × (((ready_status ready).1 ≡ 1) ↔ (ready ≡ some "True"))
      × (((ready_status ready).0 ≡ "deploying") ↔ ((ready ≢ some "True") × (ready ≢ some "False")))
ready_status-cases none = (
  (λ h. absurd (deploying_ne_running h), λ h. cc),
  (λ h. absurd (deploying_ne_degraded h), λ h. cc),
  (λ h. absurd (omega arith), λ h. cc),
  (λ h. ((λ e. absurd (ground arith)), (λ e. absurd (ground arith))), λ h. refl),
)
ready_status-cases (some s) = (
  (
    λ h. ground (arith, eq_iff s "True", deploying_ne_running, degraded_ne_running),
    λ h. ground (arith, eq_iff s "True"),
  ),
  (
    λ h. ground (arith, eq_iff s "False", deploying_ne_degraded, running_ne_degraded),
    λ h. ground (arith, eq_iff s "False", eq_iff s "True", true_ne_false),
  ),
  (λ h. ground (arith, eq_iff s "True"), λ h. ground (arith, eq_iff s "True")),
  (
    λ h. (
      λ e. ground (arith, eq_iff s "True", deploying_ne_running),
      λ e. ground (arith, eq_iff s "False", eq_iff s "True", true_ne_false, deploying_ne_degraded),
    ),
    λ h. ground (arith, eq_iff s "True", eq_iff s "False", h.0, h.1),
  ),
)

-- A service is reported as running exactly if its Ready condition is True, and then and only then with
-- one replica; as degraded exactly if it is False; and as deploying exactly if it is neither.
pub derive_container_status-ready :
    (svc : Service)
    → (((derive_container_status svc).status ≡ "running") ↔ (svc.status.ready ≡ some "True"))
      × (((derive_container_status svc).status ≡ "degraded") ↔ (svc.status.ready ≡ some "False"))
      × (((derive_container_status svc).ready_replicas ≡ 1) ↔ (svc.status.ready ≡ some "True"))
      × (((derive_container_status svc).status ≡ "deploying")
          ↔ ((svc.status.ready ≢ some "True") × (svc.status.ready ≢ some "False")))
unfolding derive_container_status
derive_container_status-ready svc = ready_status-cases svc.status.ready
