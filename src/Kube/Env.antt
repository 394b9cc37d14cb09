-- ===== src/Kube/Env.antt =====
-- What stands outside the program, as a parameter: the Kubernetes API server behind the typed and
-- dynamic clients, Hydra behind the HTTP client, and the JSON and quantity libraries. Every call
-- reads and changes a world of which nothing is known, so each may fail in any way, and others may
-- change the cluster between two calls.
use Prim.Native.Char.{Char}
use hydra_operator.Base.{String, Option, none, some, ◌≡◌, List, Result, ok, err, ◌∷◌}
use hydra_operator.Base.Int.{ℤ}
use hydra_operator.Wire.{CustomDomain, DesiredState}
use hydra_operator.Kube.Objects.{
  NamespaceObject, ResourceQuota, Secret, Service, DomainMapping, Route, Unstructured,
  GroupVersionResource, Quantity,
}
use hydra_operator.Kube.Calls.{
  Body, HttpRequest, HttpResponse, ApiError, Kind, Object, Call, get_call, create_call, update_call,
  delete_call,
}

-- One typed client: `create` and `update` take the namespace, `get` and `delete` the name too.
pub record Resource (W T : Type 0) : Type 0 where
  pub get : String → String → W → Result ApiError T × W
  pub create : String → T → W → Result ApiError T × W
  pub update : String → T → W → Result ApiError T × W
  pub delete : String → String → W → Result ApiError (Unit {0}) × W

pub record Env : Type 1 where
  pub World : Type 0
  pub namespaces : Resource World NamespaceObject
  pub resource_quotas : Resource World ResourceQuota
  pub secrets : Resource World Secret
  pub services : Resource World Service
  pub domain_mappings : Resource World DomainMapping
  pub routes : Resource World Route
  pub dynamic : GroupVersionResource → Resource World Unstructured
  -- the core Services, of which only one is ever read
  pub core_service : String → String → World → Result ApiError (Unit {0}) × World
  -- `ServerResourcesForGroupVersion`, `ServerVersion` and `Nodes().List`
  pub discover : String → World → Result ApiError (Unit {0}) × World
  pub server_version : World → Result ApiError String × World
  pub list_nodes : World → Result ApiError (List String) × World
  -- `http.Client.Do`, and the errors of `http.NewRequestWithContext` and `json.Marshal`
  pub round_trip : HttpRequest → World → Result String HttpResponse × World
  pub request_error : String → String → Option String
  pub marshal_error : Body → Option String
  -- `json.Unmarshal` of a text and of the plain fields of a custom domain
  pub unmarshal_string : String → Result String String
  pub unmarshal_domain : String → Result String CustomDomain
  -- the decoders of the two responses; the first is given the decoder of a custom domain
  pub decode_state : (String → Result String CustomDomain) → String → Result String DesiredState
  pub decode_token : String → Result String String
  pub parse_quantity : String → Option Quantity
  pub new_quantity : ℤ → Quantity
  -- `unicode.ToLower` outside ASCII
  pub lower_wide : Char → Char

-- Requests can be encoded and built; whether they arrive, and what comes back, is open.
pub record CanSend (env : Env) : Type 0 where
  pub marshals : (b : Body) → env.marshal_error b ≡ none
  pub builds : (method url : String) → env.request_error method url ≡ none

-- The world, and the calls made so far with the newest first.
pub record Session (W : Type 0) : Type 0 where
  pub world : W
  pub log : List Call

-- A function of the program that makes calls.
abbrev pub Action : Type 0 → Type 0 → Type 0
Action W A = Session W → A × Session W

unfoldable pub pure : {W A : Type 0} → A → Action W A
pure a s = (a, s)

infixl 5 ◌>>=◌ ◌>>◌
unfoldable pub ◌>>=◌ : {W A B : Type 0} → Action W A → (A → Action W B) → Action W B
unfolding pure
◌>>=◌ m f s = let (a, t) = m s in f a t

abbrev pub ◌>>◌ : {W A B : Type 0} → Action W A → Action W B → Action W B
m >> k = m >>= λ _. k

-- `v, err := m; if err != nil { return f err }`
unfoldable pub or_return :
    {W E A B : Type 0} → Action W (Result E A) → (E → Action W B) → (A → Action W B) → Action W B
unfolding ◌>>=◌
or_return m f k s = let (r, t) = m s in elim r [ ok a ↦ k a t | err e ↦ f e t ]

-- `if err := e; err != nil { return f err }`, for a check that makes no call.
unfoldable pub unless : {W E A : Type 0} → Option E → (E → Action W A) → Action W A → Action W A
unless none f m = m
unless (some e) f m = f e

-- A call leaves its entry in the log.
unfoldable pub perform : {W A : Type 0} → Call → (W → A × W) → Action W A
perform c op s = let (a, w) = op s.world in (a, record { world = w; log = c ∷ s.log })

-- A typed client with its kind and the way its objects are logged.
pub record Client (W T : Type 0) : Type 0 where
  pub store : Resource W T
  pub kind : Kind
  pub wrap : T → Object

module _ {W T : Type 0} (c : Client W T) where
  unfoldable pub get : String → String → Action W (Result ApiError T)
  unfolding perform
  get ns name = perform (get_call c.kind ns name) (c.store.get ns name)

  unfoldable pub create : String → T → Action W (Result ApiError T)
  unfolding perform
  create ns t = perform (create_call ns (c.wrap t)) (c.store.create ns t)

  unfoldable pub update : String → T → Action W (Result ApiError T)
  unfolding perform
  update ns t = perform (update_call ns (c.wrap t)) (c.store.update ns t)

  unfoldable pub delete : String → String → Action W (Result ApiError (Unit {0}))
  unfolding perform
  delete ns name = perform (delete_call c.kind ns name) (c.store.delete ns name)
