-- ===== src/Hydra/Client/Defs.antt =====
-- internal/hydraclient/client.go: the requests, and `do`, through which each of them goes.
use Prim.Native.String.{slice}
use hydra_operator.Base.{
  ℕ, String, ◌<>◌, Bool, true, false, Option, none, some, Result, ok, err, ◌||◌, not, ltb, eqb,
  if◌then◌else◌,
}
use hydra_operator.Base.Int.{pos}
use hydra_operator.Base.Decimal.{itoa}
use hydra_operator.Wire.{
  CustomDomain, DesiredState, no_state, HeartbeatRequest, ClusterStatusRequest,
  NamespaceSyncStatusRequest, AgentK8sStatusRequest, DomainStatusRequest,
}
use hydra_operator.Kube.Calls.{
  Body, registration, heartbeat, cluster_status, namespace_status, agent_status, domain_status,
  HttpRequest, HttpResponse, http_call,
}
use hydra_operator.Kube.Env.{Env, Action, pure, or_return, unless, perform, ◌>>=◌}

-- `http.Client` is the environment's.
pub record Client : Type 0 where
  pub base_url : String
  pub cluster_id : String
  pub token : String

abbrev pub Failable : Type 0
Failable = Result String (Unit {0})

-- `New`
abbrev pub new : String → String → Client
new base_url cluster_id = record { base_url = base_url; cluster_id = cluster_id; token = "" }

-- `SetToken`
abbrev pub set_token : Client → String → Client
set_token c token = record c { token = token }

-- What is passed on of an error, behind the name of the operation.
abbrev pub wrap_error : {A : Type 0} → String → Result String A → Result String A
wrap_error op (ok a) = ok a
wrap_error op (err e) = err ("hydraclient: " <> op <> ": " <> e)

abbrev pub cluster_path : Client → String → String
cluster_path c op = "/operator/clusters/" <> c.cluster_id <> op

-- `resp.StatusCode < 200 || resp.StatusCode >= 300`
abbrev pub is_failure : ℕ → Bool
is_failure code = ltb code 200 || not (ltb code 300)

abbrev pub content_type_of : Option Body → Option String
content_type_of none = none
content_type_of (some _) = some "application/json"

-- The request that `do` builds.
unfoldable pub build_request : Client → String → String → Option Body → Bool → HttpRequest
build_request c method path body authed = record {
  method = method;
  url = c.base_url <> path;
  content_type = content_type_of body;
  authorization = if authed then some ("Bearer " <> c.token) else none;
  body = body;
}

-- What `do` makes of a response. With no decoder, or no content, the result keeps its zero value.
unfoldable pub read_response :
    {A : Type 0}
    → String
    → String
    → A
    → Option (String → Result String A)
    → HttpResponse
    → Result String A
read_response method path zero_value decode resp =
    if is_failure resp.status_code
    then err (
        "unexpected status "
        <> itoa (pos resp.status_code)
        <> " from "
        <> method
        <> " "
        <> path
        <> ": "
        <> slice resp.text 0 4096)
    else elim decode [
      | none ↦ ok zero_value
      | some d ↦
          if eqb resp.status_code 204
          then ok zero_value
          else elim (d resp.text) [ ok a ↦ ok a | err e ↦ err ("decode response body: " <> e) ]
    ]

module _ (env : Env) where
  -- The error of `json.Marshal`, if there is a body.
  abbrev pub body_error : Option Body → Option String
  body_error none = none
  body_error (some b) = env.marshal_error b

  -- `do`. The last two arguments stand for `out`: the zero value and the decoder of what it points
  -- to, with no decoder where `out` is nil.
  unfoldable pub send :
      {A : Type 0}
      → Client
      → String
      → String
      → Option Body
      → Bool
      → A
      → Option (String → Result String A)
      → Action env.World (Result String A)
  send c method path body authed zero_value decode =
      unless (body_error body) (λ e. pure (err ("marshal request body: " <> e)))
        (unless (env.request_error method (c.base_url <> path))
          (λ e. pure (err ("build request: " <> e)))
          (let req = build_request c method path body authed in
            or_return (perform (http_call req) (env.round_trip req))
              (λ e. pure (err ("do request: " <> e)))
              (λ resp. pure (read_response method path zero_value decode resp))))

  -- A request whose response is not read.
  unfoldable pub report : Client → String → String → String → Body → Action env.World Failable
  report c op method path body = do
    r ← send c method path (some body) true tt none
    pure (wrap_error op r)

  -- `Register` and `RotateToken`: on success the client holds the new token.
  abbrev pub keep_token : Client → String → Result String String → Result String String × Client
  keep_token c op (ok token) = (ok token, set_token c token)
  keep_token c op (err e) = (wrap_error op (err e), c)

  unfoldable pub register : Client → String → Action env.World (Result String String × Client)
  register c registration_token = do
    r ←
        send c "POST" (cluster_path c "/register") (some (registration registration_token)) false ""
          (some env.decode_token)
    pure (keep_token c "register" r)

  unfoldable pub rotate_token : Client → Action env.World (Result String String × Client)
  rotate_token c = do
    r ← send c "POST" (cluster_path c "/rotate-token") none true "" (some env.decode_token)
    pure (keep_token c "rotate token" r)

  unfoldable pub post_heartbeat : Client → HeartbeatRequest → Action env.World Failable
  post_heartbeat c req = report c "heartbeat" "POST" (cluster_path c "/heartbeat") (heartbeat req)

  unfoldable pub put_cluster_status : Client → ClusterStatusRequest → Action env.World Failable
  put_cluster_status c req =
      report c "put cluster status" "PUT" (cluster_path c "/status") (cluster_status req)

  -- `CustomDomain.UnmarshalJSON`: a bare text is a hostname with no ID.
  unfoldable pub unmarshal_custom_domain : String → Result String CustomDomain
  unmarshal_custom_domain bytes = elim (env.unmarshal_string bytes) [
    | ok hostname ↦ ok (record { id = ""; hostname = hostname })
    | err _ ↦ elim (env.unmarshal_domain bytes) [
      | ok a ↦ ok a
      | err e ↦ err ("hydraclient: unmarshal custom domain: " <> e)
    ]
  ]

  unfoldable pub get_desired_state : Client → Action env.World (Result String DesiredState)
  get_desired_state c = do
    r ←
        send c "GET" (cluster_path c "/desired-state") none true no_state
          (some (env.decode_state unmarshal_custom_domain))
    pure (wrap_error "get desired state" r)

  unfoldable pub put_namespace_sync_status :
      Client → String → NamespaceSyncStatusRequest → Action env.World Failable
  put_namespace_sync_status c namespace_id req =
      report c "put namespace sync status" "PUT"
        ("/operator/namespaces/" <> namespace_id <> "/sync-status") (namespace_status req)

  unfoldable pub put_agent_k8s_status :
      Client → String → AgentK8sStatusRequest → Action env.World Failable
  put_agent_k8s_status c agent_id req =
      report c "put agent k8s status" "PUT" ("/operator/agents/" <> agent_id <> "/k8s-status")
        (agent_status req)

  unfoldable pub put_domain_status :
      Client → String → DomainStatusRequest → Action env.World Failable
  put_domain_status c domain_id req =
      report c "put domain status" "PUT" ("/operator/domains/" <> domain_id <> "/status")
        (domain_status req)
