-- ===== src/Startup/Laws.antt =====
-- What holds of an operator that has started.
use Prim.Native.Char.{Char}
use mathlib.Core.Option
use hydra_operator.Base.{
  String, ◌≡◌, Bool, true, false, Option, some, Result, ok, err, arith, Result-cases, inl, inr, ap,
  is_empty, eq_iff,
}
use hydra_operator.Base.Dict.{Dict}
use hydra_operator.Kube.Env.{Env, Session, pure, ◌>>=◌, or_return, get}
use hydra_operator.Kube.Laws.{Obeys}
use hydra_operator.Capabilities.{Detected, detect}
use hydra_operator.TokenStore.{Store, token_in, build_secret, load, save}
use hydra_operator.TokenStore.RoundTrip.{secret_name_of, secret_view, save-entries}
use hydra_operator.Hydra.Client.{Client, register, keep_token}
use hydra_operator.Config.{Config}
use hydra_operator.Startup.Defs.{
  health_status, check_knative_available, first_token, obtain_token, start_up,
}

keep_token-token :
    (env : Env) (c : Client) (op token : String) (r : Result String String)
    → (keep_token env c op r).0 ≡ ok token
    → (keep_token env c op r).1.token ≡ token
keep_token-token env c op token (ok t) h = ground arith
keep_token-token env c op token (err e) h = ground arith

register-token :
    (env : Env) (c : Client) (registration_token token : String) (s : Session env.World)
    → (register env c registration_token s).0.0 ≡ ok token
    → (register env c registration_token s).0.1.token ≡ token
unfolding register ◌>>=◌
register-token env c registration_token token s = keep_token-token env c "register" token _

module _ (env : Env) (store : Store) (seen : String → String → env.World → Option (Dict String))
    (laws : Obeys env.secrets seen secret_name_of secret_view) where
  -- The token in the Secret, if there is one.
  abbrev pub token_held : Session env.World → Option String
  token_held s = Option.map token_in (seen store.namespace store.secret_name s.world)

  save-held :
      (token : String) (s : Session env.World)
      → (save env store token s).0 ≡ ok tt
      → token_held (save env store token s).1 ≡ some token
  unfolding build_secret
  save-held token s h = ap (Option.map token_in) (save-entries env store seen laws token s h)

  load-held :
      (token : String) (s : Session env.World)
      → (load env store s).0 ≡ ok token
      → is_empty token ≡ false
      → token_held (load env store s).1 ≡ some token
  unfolding load or_return get
  load-held token s h filled =
      elim (Result-cases (env.secrets.get store.namespace store.secret_name s.world).0) [
        | inl (secret, found) ↦
            ground (arith, laws.get_ok store.namespace store.secret_name s.world secret found)
        | inr (e, failed) ↦ ground (arith, eq_iff token "")
      ]

  first_token-held :
      (hydra c : Client) (registration_token : String) (s : Session env.World)
      → (first_token env store hydra registration_token s).0 ≡ ok c
      → token_held (first_token env store hydra registration_token s).1 ≡ some c.token
  unfolding first_token ◌>>=◌ or_return pure
  first_token-held hydra c registration_token s h =
      grind (arith, save-held, register-token env hydra registration_token)

  -- When the API for Secrets obeys its laws and `main` gets a client with a token, from the Secret
  -- or by a registration, the Secret holds the token of that client, so a restart can load it.
  pub obtain_token-held :
      (hydra c : Client) (registration_token : String) (s : Session env.World)
      → (obtain_token env store hydra registration_token s).0 ≡ ok c
      → token_held (obtain_token env store hydra registration_token s).1 ≡ some c.token
  unfolding obtain_token or_return pure
  obtain_token-held hydra c registration_token s h = elim (Result-cases (load env store s).0) [
    | inl (token, loaded) ↦ ground (
      arith,
      load-held token s loaded,
      first_token-held hydra c registration_token (load env store s).1,
    )
    | inr (e, failed) ↦ ground arith
  ]

module _ (env : Env) where
  knative_checked :
      (s : Session env.World)
      → (check_knative_available env s).0 ≡ ok tt
      → (d : Detected) × ((detect env s).0 ≡ ok d) × (d.capabilities.knative_available ≡ true)
  unfolding check_knative_available or_return pure
  knative_checked s h = elim (Result-cases (detect env s).0) [
    | inl (d, found) ↦ (d, found, ground arith)
    | inr (e, failed) ↦ absurd (ground arith)
  ]

  started_checked :
      (wide_space : Char → Bool) (cfg : Config) (file : Result String String)
      (s : Session env.World) (c : Client)
      → (start_up env wide_space cfg file s).0.started ≡ ok c
      → ((check_knative_available env s).0 ≡ ok tt)
        × ((start_up env wide_space cfg file s).0.ready ≡ true)
  unfolding start_up or_return ◌>>=◌ pure
  started_checked wide_space cfg file s c h =
      elim (Result-cases (check_knative_available env s).0) [
        | inl (tt, checked) ↦ (checked, ground arith)
        | inr (e, failed) ↦ absurd (ground arith)
      ]

  -- A start that gives a client has found Knative Serving, and `/readyz` answers 200.
  pub start_up-knative :
      (wide_space : Char → Bool) (cfg : Config) (file : Result String String)
      (s : Session env.World) (c : Client)
      → (start_up env wide_space cfg file s).0.started ≡ ok c
      → ((d : Detected) × ((detect env s).0 ≡ ok d) × (d.capabilities.knative_available ≡ true))
        × (health_status (start_up env wide_space cfg file s).0.ready "/readyz" ≡ 200)
  start_up-knative wide_space cfg file s c h =
      let (checked, ready) = started_checked wide_space cfg file s c h in
      (knative_checked s checked, ap (λ r. health_status r "/readyz") ready)
