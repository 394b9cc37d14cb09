-- ===== src/TokenStore/Defs.antt =====
-- internal/tokenstore/tokenstore.go: the cluster token in one Secret.
use hydra_operator.Base.{String, ◌<>◌, none, some, [], ◌∷◌, Result, ok, err, if◌then◌else◌}
use hydra_operator.Base.Dict.{Dict, lookup}
use hydra_operator.Kube.Objects.{Secret}
use hydra_operator.Kube.Calls.{ApiError}
use hydra_operator.Kube.Env.{Env, Action, pure, or_return, get, create, update}
use hydra_operator.Kube.Clients.{secrets}

abbrev pub token_key : String
token_key = "cluster-token"

-- The namespace and the name of the Secret; the client is the environment's.
pub record Store : Type 0 where
  pub namespace : String
  pub secret_name : String

-- A missing key reads as the empty text.
abbrev pub token_in : Dict String → String
token_in entries = elim (lookup token_key entries) [ none ↦ "" | some token ↦ token ]

unfoldable pub build_secret : Store → String → Secret
build_secret store token = record {
  meta = record {
    name = store.secret_name;
    namespace = store.namespace;
    labels = [];
    annotations = [];
    resource_version = "";
  };
  kind = "Opaque";
  entries = (token_key, token) ∷ [];
}

module _ (env : Env) (store : Store) where
  -- No Secret is no error: the operator has not registered yet.
  unfoldable pub load : Action env.World (Result String String)
  load =
      or_return (get (secrets env) store.namespace store.secret_name)
        (λ e. if e.not_found then pure (ok "") else pure (err ("tokenstore: load: " <> e.message)))
        (λ secret. pure (ok (token_in secret.entries)))

  -- `Save`, for the error of the last call that it makes.
  abbrev save_failed : ApiError → Action env.World (Result String (Unit {0}))
  save_failed e = pure (err ("tokenstore: save: " <> e.message))

  unfoldable pub save : String → Action env.World (Result String (Unit {0}))
  save token =
      or_return (create (secrets env) store.namespace (build_secret store token))
        (λ e.
          if e.already_exists
          then or_return (update (secrets env) store.namespace (build_secret store token))
              save_failed (λ _. pure (ok tt))
          else save_failed e)
        (λ _. pure (ok tt))
