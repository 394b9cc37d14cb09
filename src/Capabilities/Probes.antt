-- ===== src/Capabilities/Probes.antt =====
-- The probes are independent of one another.
use hydra_operator.Base.{String, Bool, ◌≡◌, ok, arith, is_ok}
use hydra_operator.Kube.Env.{Env, Session, pure, ◌>>=◌, or_return, perform}
use hydra_operator.Capabilities.{Detected, group_version_available, kourier_present, probe, detect}

-- `serves` says which API groups the cluster serves, and `kourier` whether it has Kourier's service,
-- whatever is asked in between.
pub record Steady (env : Env) (serves : String → Bool) (kourier : Bool) : Type 0 where
  pub groups : (group : String) (w : env.World) → is_ok (env.discover group w).0 ≡ serves group
  pub service : (w : env.World) → is_ok (env.core_service "kourier-system" "kourier" w).0 ≡ kourier

module _ (env : Env) (serves : String → Bool) (kourier : Bool)
    (steady : Steady env serves kourier) where
  probe-serves :
      (s : Session env.World)
      → (probe env s).0 ≡ record {
        openshift_available = serves "route.openshift.io/v1";
        kourier_present = kourier;
        gateway_api_present = serves "gateway.networking.k8s.io/v1";
        knative_available = serves "serving.knative.dev/v1";
        gatekeeper_available = serves "constraints.gatekeeper.sh/v1beta1";
      }
  unfolding probe group_version_available kourier_present perform ◌>>=◌ pure
  probe-serves s = simp (steady.groups, steady.service)

  -- On a cluster that serves the same groups throughout, a detection that succeeds has found each
  -- capability exactly if its own group, or Kourier's service, is there, whatever became of the
  -- other probes.
  pub detect-serves :
      (s : Session env.World) (d : Detected)
      → (detect env s).0 ≡ ok d
      → d.capabilities ≡ record {
        openshift_available = serves "route.openshift.io/v1";
        kourier_present = kourier;
        gateway_api_present = serves "gateway.networking.k8s.io/v1";
        knative_available = serves "serving.knative.dev/v1";
        gatekeeper_available = serves "constraints.gatekeeper.sh/v1beta1";
      }
  unfolding detect ◌>>=◌ or_return perform pure
  detect-serves s d h = ground (arith, probe-serves s)
