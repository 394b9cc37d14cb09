-- ===== src/Reconciler/Container/Updates.antt =====
-- What the update of a container's service sends.
use hydra_operator.Base.{String, ◌≡◌, refl, ◌∷◌, ok, arith}
use hydra_operator.Wire
use hydra_operator.Kube.Objects.{Service}
use hydra_operator.Kube.Calls.{Kind, service_object, update_call, get_call}
use hydra_operator.Kube.Env.{Env, Session, pure, or_return, get, update}
use hydra_operator.Reconciler.Naming.{ksvc_name_for}
use hydra_operator.Reconciler.Container.Defs.{build_service, carry_forward, reconcile}

-- An update of `existing` towards `desired`: the labels and the spec are the desired ones, and the
-- version, the annotations and the status stay.
pub record Updates (desired existing sent : Service) : Type 0 where
  pub labels : sent.meta.labels ≡ desired.meta.labels
  pub spec : sent.spec ≡ desired.spec
  pub version : sent.meta.resource_version ≡ existing.meta.resource_version
  pub annotations : sent.meta.annotations ≡ existing.meta.annotations
  pub status : sent.status ≡ existing.status

module _ (env : Env) (c : Wire.Container) where
  abbrev name : String
  name = ksvc_name_for env.lower_wide c.id

  -- If the container's service is found, `Reconcile` makes one more call, whatever its answer: an
  -- update with the labels and the spec of the code and the version, annotations and status that were
  -- found.
  pub reconcile-Updates :
      (existing : Service) (s : Session env.World)
      → (env.services.get c.namespace_k8s_name name s.world).0 ≡ ok existing
      → (sent : Service) × ((reconcile env c s).1.log
          ≡ update_call c.namespace_k8s_name (service_object sent)
            ∷ get_call Kind.services c.namespace_k8s_name name
            ∷ s.log)
        × Updates (build_service env name c) existing sent
  unfolding reconcile or_return get update pure
  reconcile-Updates existing s found = (
    carry_forward (build_service env name c) existing,
    ground arith,
    record { labels = refl; spec = refl; version = refl; annotations = refl; status = refl },
  )
