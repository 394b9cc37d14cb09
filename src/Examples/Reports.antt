-- ===== src/Examples/Reports.antt =====
-- The theorems about reports, requests and settings, at concrete inputs.
use hydra_operator.Base.{
  ◌≢◌, String, true, ◌≡◌, ◌↔◌, refl, some, none, List, [], ◌∷◌, ok, err, ◌≤◌, ◌<◌, ◌&&◌, not,
  is_empty, is_ok, count_if,
}
use hydra_operator.Base.Int.{pos}
use hydra_operator.Kube.Objects.{Service}
use hydra_operator.Kube.Calls.{HttpResponse, cluster_status, http_call, registration}
use hydra_operator.Kube.Env.{CanSend, Session, ◌>>=◌, or_return, unless, perform}
use hydra_operator.Kube.Fake.{World, empty_world, start}
use hydra_operator.Hydra.Client.{
  build_request, read_response, cluster_path, send, register, get_desired_state,
}
use hydra_operator.Hydra.Client.Laws.{Adds, Decoded, TokenKept, send_ok, register_lem}
use hydra_operator.Config.{Config, validate}
use hydra_operator.Config.Validity.{IsUsable, validate_iff}
use hydra_operator.Reconciler.Status.{contains, derive_container_status}
use hydra_operator.Reconciler.Status.Laws.{
  names, IsDistinct, derive_container_status-revisions, derive_container_status-ready,
}
use hydra_operator.Reconciler.Container.{build_service}
use hydra_operator.Reconciler.Domain.{DomainStatus}
use hydra_operator.Reconciler.Manager.{
  heartbeat_once, sync_once, unreachable, report_domain_statuses, reconcile_namespaces,
  reconcile_containers,
}
use hydra_operator.Reconciler.Reports.{reports}
use hydra_operator.Reconciler.Reports.Namespaces.{
  outcomes, namespace_reports, reconcile_namespaces-reports,
}
use hydra_operator.Reconciler.Reports.Domains.{domain_reports, report_domain_statuses-reports}
use hydra_operator.Reconciler.Reports.Containers.{
  rounds, container_reports, is_running, reconcile_containers-reports,
}
use hydra_operator.Reconciler.Reports.Sync.{sync_once-unreachable}
use hydra_operator.Capabilities.{detect}
use hydra_operator.Reconciler.Reports.Heartbeat.{heartbeat_sent, heartbeat_once-reports}
use hydra_operator.Examples.Data.{env, cfg, hydra, state, agent, fresh}

can_send : CanSend env
can_send = record { marshals = λ b. refl; builds = λ method url. refl }

cut_off : Session World
cut_off = start (record empty_world { answer = none })

not_pulled :
    (get_desired_state env hydra cut_off).0
    ≡ err "hydraclient: get desired state: do request: connection refused"
unfolding cut_off get_desired_state send unless perform build_request ◌>>=◌ or_return
not_pulled = refl

sync_once-unreachable_example :
    (sync_once env cfg cut_off).1.log
    ≡ http_call (
        build_request hydra "PUT"
          (cluster_path hydra "/status")
          (some (cluster_status unreachable))
          true)
      ∷ http_call (build_request hydra "GET" (cluster_path hydra "/desired-state") none true)
      ∷ cut_off.log
sync_once-unreachable_example = sync_once-unreachable env cfg can_send cut_off _ not_pulled

reconcile_namespaces-reports_example :
    (reports (reconcile_namespaces env cfg state.namespaces fresh).1.log
      ≡ namespace_reports env cfg state.namespaces (outcomes env cfg state.namespaces fresh) [])
    × ((reconcile_namespaces env cfg state.namespaces fresh).0
        ≡ count_if is_ok (outcomes env cfg state.namespaces fresh))
reconcile_namespaces-reports_example =
    reconcile_namespaces-reports env cfg can_send state.namespaces fresh

reconcile_containers-reports_example :
    (reports (reconcile_containers env cfg state.containers fresh).1.log
      ≡ container_reports env cfg state.containers (rounds env cfg state.containers fresh) [])
    × ((reconcile_containers env cfg state.containers fresh).0
        ≡ count_if (is_running env cfg) (rounds env cfg state.containers fresh))
reconcile_containers-reports_example =
    reconcile_containers-reports env cfg can_send state.containers fresh

heartbeat_once-reports_example :
    reports (heartbeat_once env cfg fresh).1.log
    ≡ heartbeat_sent env cfg can_send (detect env fresh).0 []
heartbeat_once-reports_example = heartbeat_once-reports env cfg can_send fresh

abbrev two_domains : List DomainStatus
two_domains =
    record { id = ""; hostname = "old"; status = "active"; error = "" }
    ∷ record { id = "d1"; hostname = "app"; status = "error"; error = "not yet ready" }
    ∷ []

report_domain_statuses-reports_example :
    reports (report_domain_statuses env cfg two_domains fresh).1.log
    ≡ domain_reports env cfg two_domains []
report_domain_statuses-reports_example =
    report_domain_statuses-reports env cfg can_send two_domains fresh

abbrev observed : Service
observed = record (build_service env "ksvc-1" agent) {
  status = record {
    url = some "https://a";
    latest_ready_revision_name = "r2";
    ready = some "True";
    traffic = "r2" ∷ "" ∷ "r1" ∷ "r2" ∷ [];
  };
}

derive_container_status-revisions_example :
    IsDistinct (names (derive_container_status observed).revisions)
    × ((x : String)
        → contains x (names (derive_container_status observed).revisions)
          ≡ (contains x observed.status.traffic && not (is_empty x)))
derive_container_status-revisions_example = derive_container_status-revisions observed

derive_container_status-ready_example :
    (((derive_container_status observed).status ≡ "running")
      ↔ (observed.status.ready ≡ some "True"))
    × (((derive_container_status observed).status ≡ "degraded")
        ↔ (observed.status.ready ≡ some "False"))
    × (((derive_container_status observed).ready_replicas ≡ 1)
        ↔ (observed.status.ready ≡ some "True"))
    × (((derive_container_status observed).status ≡ "deploying")
        ↔ ((observed.status.ready ≢ some "True") × (observed.status.ready ≢ some "False")))
derive_container_status-ready_example = derive_container_status-ready observed

abbrev ok_response : HttpResponse
ok_response = record { status_code = 200; text = "state" }

sent_ok : (send env hydra "GET" "/x" none true "" (some ok) fresh).0 ≡ ok "state"
unfolding send unless perform read_response or_return
sent_ok = refl

send_ok_example :
    (resp : HttpResponse) × ((env.round_trip
        (build_request hydra "GET" "/x" none true)
        fresh.world).0
      ≡ ok resp)
    × (200 ≤ resp.status_code)
    × (resp.status_code < 300)
    × Decoded "" (some ok) resp "state"
send_ok_example = send_ok env hydra "GET" "/x" none true "" (some ok) fresh "state" sent_ok

register_lem_example :
    Adds
      (record {
        method = "POST";
        url = "https://hydra/operator/clusters/c1/register";
        content_type = some "application/json";
        authorization = none;
        body = some (registration "reg");
      })
      fresh
      (register env hydra "reg" fresh)
    × TokenKept hydra (register env hydra "reg" fresh).0
register_lem_example = register_lem env can_send hydra "reg" fresh

abbrev pub settings : Config
settings = record {
  log = record { level = "Info"; format = "json" };
  hydra = record { url = "u"; cluster_id = "c"; registration_token = ""; http_timeout = pos 30 };
  reconciler = record { sync_interval = pos 30; heartbeat_interval = pos 30 };
  capabilities = record { check_interval = pos 300; probe_timeout = pos 10 };
  metrics = record { port = pos 8080 };
  operator = record { namespace = ""; token_secret_name = "t"; kubeconfig = "" };
}

validate_iff_example : (validate (λ c. c) settings ≡ ok tt) ↔ IsUsable (λ c. c) settings
validate_iff_example = validate_iff (λ c. c) settings
