-- ===== src/Examples/Started.antt =====
-- The theorems about the start, the loops and the policies, at concrete inputs.
use mathlib.Core.Option
use hydra_operator.Base.{All, String, true, ◌≡◌, refl, Option, some, List, [], ◌∷◌, ok}
use hydra_operator.Base.Text.{to_lower}
use hydra_operator.Kube.Objects.{Json}
use hydra_operator.Kube.Env.{
  Session, pure, ◌>>=◌, or_return, unless, perform, get, create, update, delete,
}
use hydra_operator.Kube.Laws.{Obeys}
use hydra_operator.Kube.Names.{object_name}
use hydra_operator.Kube.Memory.{find, table-Obeys}
use hydra_operator.Kube.Fake.{World, objects_of, start, empty_world}
use hydra_operator.TokenStore.{build_secret, load, save}
use hydra_operator.Hydra.Client.{Client, set_token, register, send, build_request, read_response}
use hydra_operator.Config.{Config}
use hydra_operator.Startup.{first_token, obtain_token}
use hydra_operator.Startup.Laws.{token_held, obtain_token-held}
use hydra_operator.Reconciler.RunLoop.{Select, done_ready, tick_ready, both_ready}
use hydra_operator.Reconciler.Run.{sync_loop, heartbeat_loop}
use hydra_operator.Reconciler.Ownership.{AllOwned}
use hydra_operator.Reconciler.Ownership.Loops.{run_loop-IsOwned}
use hydra_operator.Reconciler.Namespace
use hydra_operator.Reconciler.Namespace.Imported.{IsQuotaCall, reconcile-imported}
use hydra_operator.Reconciler.Policy
use hydra_operator.Reconciler.Policy.Settles.{
  constraint_view, wanted_allowlist, allowlist_gvr, reconcile-allowlist,
}
use hydra_operator.Examples.Data.{env, cfg, hydra, state, fresh, with_gatekeeper, prod}
use hydra_operator.Examples.Settled.{secrets_in, secrets-Obeys, store}
use hydra_operator.Examples.Reports.{settings}

abbrev selects : List Select
selects = tick_ready ∷ both_ready true ∷ done_ready ∷ tick_ready ∷ []

run_loop-IsOwned_example :
    AllOwned env.lower_wide hydra (sync_loop env cfg selects with_gatekeeper).1.log
    × AllOwned env.lower_wide hydra (heartbeat_loop env cfg selects with_gatekeeper).1.log
run_loop-IsOwned_example = run_loop-IsOwned env cfg selects with_gatekeeper tt

abbrev registered : Client
registered = set_token hydra "state"

token_obtained : (obtain_token env store hydra "reg" fresh).0 ≡ ok registered
unfolding obtain_token first_token load save register send unless perform build_request
    read_response build_secret or_return ◌>>=◌ get create pure
token_obtained = refl

obtain_token-held_example :
    token_held env store secrets_in secrets-Obeys (obtain_token env store hydra "reg" fresh).1
    ≡ some "state"
obtain_token-held_example =
    obtain_token-held env store secrets_in secrets-Obeys hydra registered "reg" fresh token_obtained

abbrev pub first_start : Config
first_start = record settings { hydra = record settings.hydra { registration_token = "reg" } }

allowlists_in : String → String → World → Option (Option Json × Option Json)
allowlists_in ns name w =
    Option.map constraint_view (find (allowlist_gvr env).resource name w.objects)

objects-Obeys :
    Obeys objects_of
      (λ ns name w. Option.map constraint_view (find ns name w.objects))
      object_name
      constraint_view
objects-Obeys =
    table-Obeys (λ w. w.objects) (λ t w. record w { objects = t }) object_name (λ t w. refl)
      constraint_view

allowlists-Obeys : Obeys (env.dynamic (allowlist_gvr env)) allowlists_in object_name constraint_view
unfolding allowlists_in
allowlists-Obeys = record {
  get_ok = λ ns. objects-Obeys.get_ok _;
  get_absent = λ ns. objects-Obeys.get_absent _;
  create_ok = λ ns. objects-Obeys.create_ok _;
  update_ok = λ ns. objects-Obeys.update_ok _;
  delete_ok = λ ns. objects-Obeys.delete_ok _;
  delete_absent = λ ns. objects-Obeys.delete_absent _;
}

policies_done : (Policy.reconcile env state.security_policy fresh).0 ≡ ok tt
unfolding Policy.reconcile Policy.apply_templates Policy.apply_constraint_template
    Policy.apply_constraint Policy.apply_unstructured Policy.build_template Policy.build_constraint
    Policy.repo_params Policy.constraint_gvr to_lower or_return ◌>>=◌ get create update delete pure
policies_done = refl

reconcile-allowlist_example :
    allowlists_in "" "hydra-allowed-repos"
      (Policy.reconcile env state.security_policy fresh).1.world
    ≡ wanted_allowlist state.security_policy.allowed_registries
reconcile-allowlist_example =
    reconcile-allowlist env allowlists_in allowlists-Obeys state.security_policy fresh policies_done

-- A cluster in which the namespace is there.
abbrev with_prod : Session World
with_prod = start (record empty_world {
  namespaces =
      (
        "",
        "prod",
        record {
          meta = record {
            name = "prod";
            namespace = "";
            labels = [];
            annotations = [];
            resource_version = "1";
          };
        },
      )
      ∷ [];
})

reconcile-imported_example :
    All
      (IsQuotaCall "prod")
      (Namespace.reconcile env (record prod { mode = "imported" }) with_prod).1.log
reconcile-imported_example =
    reconcile-imported env (record prod { mode = "imported" }) with_prod refl tt
