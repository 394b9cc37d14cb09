-- ===== src/Reconciler/Status/Defs.antt =====
-- internal/reconciler/status.go
use hydra_operator.Base.{
  ℕ, String, Bool, true, false, ◌||◌, Option, none, some, List, [], ◌∷◌, is_empty, ◌==◌,
  if◌then◌else◌,
}
use hydra_operator.Wire.{RevisionEntry}
use hydra_operator.Kube.Objects.{Service}

pub record ContainerStatus : Type 0 where
  pub status : String
  pub ready_replicas : ℕ
  pub endpoint_url : String
  pub active_revision : String
  pub revisions : List RevisionEntry

-- `seen[name]`
abbrev pub contains : String → List String → Bool
contains name [] = false
contains name (x ∷ xs) = x == name || contains name xs

-- The loop over `svc.Status.Traffic`.
unfoldable pub collect_revisions : List String → List String → List RevisionEntry
collect_revisions [] seen = []
collect_revisions (name ∷ traffic) seen = elim (is_empty name || contains name seen) [
  | true ↦ collect_revisions traffic seen
  | false ↦ record { name = name } ∷ collect_revisions traffic (name ∷ seen)
]

-- The `switch` on the Ready condition, with the number of ready replicas.
abbrev pub ready_status : Option String → String × ℕ
ready_status none = ("deploying", 0)
ready_status (some s) =
    if s == "True"
    then ("running", 1)
    else if s == "False"
    then ("degraded", 0)
    else ("deploying", 0)

abbrev pub text_or_empty : Option String → String
text_or_empty none = ""
text_or_empty (some s) = s

unfoldable pub derive_container_status : Service → ContainerStatus
derive_container_status svc = record {
  status = (ready_status svc.status.ready).0;
  ready_replicas = (ready_status svc.status.ready).1;
  endpoint_url = text_or_empty svc.status.url;
  active_revision = svc.status.latest_ready_revision_name;
  revisions = collect_revisions svc.status.traffic [];
}
