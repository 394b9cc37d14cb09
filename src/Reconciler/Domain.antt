-- ===== src/Reconciler/Domain.antt =====
-- internal/reconciler/domain.go
pub mod Settles
pub mod Progress
use hydra_operator.Base.{
  String, Option, none, some, List, [], ◌∷◌, ◌==◌, Result, ok, err, if◌then◌else◌,
}
use hydra_operator.Wire
use hydra_operator.Wire.{CustomDomain}
use hydra_operator.Kube.Objects.{DomainMapping}
use hydra_operator.Kube.Calls.{ApiError}
use hydra_operator.Kube.Env.{Env, Action, pure, or_return, ◌>>=◌, get, create, update}
use hydra_operator.Kube.Clients.{domain_mappings}
use hydra_operator.Reconciler.Naming.{ksvc_name_for, managed_by}

pub record DomainStatus : Type 0 where
  pub id : String
  pub hostname : String
  pub status : String
  pub error : String

unfoldable pub build_mapping : String → String → String → DomainMapping
build_mapping namespace hostname ksvc_name = record {
  meta = record {
    name = hostname;
    namespace = namespace;
    labels = managed_by;
    annotations = [];
    resource_version = "";
  };
  ref = record { api_version = "serving.knative.dev/v1"; kind = "Service"; name = ksvc_name };
  ready = none;
}

-- What `Update` sends: the version, the status and the annotations are those of the existing one.
abbrev pub carry_forward : DomainMapping → DomainMapping → DomainMapping
carry_forward desired existing = record desired {
  meta = record desired.meta {
    resource_version = existing.meta.resource_version;
    annotations = existing.meta.annotations;
  };
  ready = existing.ready;
}

-- The end of `reconcileOne`: the outcome of an applied mapping, by its Ready condition.
abbrev pub ready_outcome : String → Option String → DomainStatus
ready_outcome hostname none = record {
  id = "";
  hostname = hostname;
  status = "error";
  error = "not yet ready";
}
ready_outcome hostname (some s) =
    if s == "True"
    then record { id = ""; hostname = hostname; status = "active"; error = "" }
    else record { id = ""; hostname = hostname; status = "error"; error = "not yet ready" }

unfoldable pub outcome : String → Result ApiError DomainMapping → DomainStatus
outcome hostname (err e) = record {
  id = "";
  hostname = hostname;
  status = "error";
  error = e.message;
}
outcome hostname (ok applied) = ready_outcome hostname applied.ready

module _ (env : Env) where
  -- The `switch` of `reconcileOne`: `applied, err`.
  unfoldable pub apply_mapping :
      String → String → String → Action env.World (Result ApiError DomainMapping)
  apply_mapping namespace hostname ksvc_name =
      let desired = build_mapping namespace hostname ksvc_name in
      or_return (get (domain_mappings env) namespace hostname)
        (λ e. if e.not_found then create (domain_mappings env) namespace desired else pure (err e))
        (λ existing. update (domain_mappings env) namespace (carry_forward desired existing))

  unfoldable pub reconcile_one : String → String → String → Action env.World DomainStatus
  reconcile_one namespace hostname ksvc_name = do
    applied ← apply_mapping namespace hostname ksvc_name
    pure (outcome hostname applied)

  -- The loop of `Reconcile`; each round sets the status's ID.
  unfoldable pub reconcile_domains :
      String → String → List CustomDomain → Action env.World (List DomainStatus)
  reconcile_domains namespace ksvc_name [] = pure []
  reconcile_domains namespace ksvc_name (domain ∷ domains) = do
    status ← reconcile_one namespace domain.hostname ksvc_name
    rest ← reconcile_domains namespace ksvc_name domains
    pure (record status { id = domain.id } ∷ rest)

  unfoldable pub reconcile : Wire.Container → Action env.World (List DomainStatus)
  reconcile c =
      reconcile_domains c.namespace_k8s_name (ksvc_name_for env.lower_wide c.id) c.custom_domains
