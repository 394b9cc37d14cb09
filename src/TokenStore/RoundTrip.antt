-- ===== src/TokenStore/RoundTrip.antt =====
-- A token that was saved is the one that a restart loads.
use hydra_operator.Base.{String, ◌≡◌, Option, some, ok, arith, ◌∙◌}
use hydra_operator.Base.Dict.{Dict}
use hydra_operator.Kube.Objects.{Secret}
use hydra_operator.Kube.Env.{Env, Session, or_return, get, create, update}
use hydra_operator.Kube.Laws.{Obeys}
use hydra_operator.TokenStore.Defs.{Store, build_secret, load, save}

abbrev pub secret_name_of : Secret → String
secret_name_of s = s.meta.name

abbrev pub secret_view : Secret → Dict String
secret_view s = s.entries

module _ (env : Env) (store : Store) (seen : String → String → env.World → Option (Dict String))
    (laws : Obeys env.secrets seen secret_name_of secret_view) where
  abbrev entries_in : Session env.World → Option (Dict String)
  entries_in s = seen store.namespace store.secret_name s.world

  created :
      (token : String) (u : Secret) (w : env.World)
      → (env.secrets.create store.namespace (build_secret store token) w).0 ≡ ok u
      → seen store.namespace store.secret_name
          (env.secrets.create store.namespace (build_secret store token) w).1
        ≡ some (build_secret store token).entries
  unfolding build_secret
  created token = laws.create_ok store.namespace (build_secret store token)

  updated :
      (token : String) (u : Secret) (w : env.World)
      → (env.secrets.update store.namespace (build_secret store token) w).0 ≡ ok u
      → seen store.namespace store.secret_name
          (env.secrets.update store.namespace (build_secret store token) w).1
        ≡ some (build_secret store token).entries
  unfolding build_secret
  updated token = laws.update_ok store.namespace (build_secret store token)

  pub save-entries :
      (token : String) (s : Session env.World)
      → (save env store token s).0 ≡ ok tt
      → entries_in (save env store token s).1 ≡ some (build_secret store token).entries
  unfolding save or_return create update
  save-entries token s h = grind (arith, created token, updated token)

  load-token :
      ((ns name : String) (w : env.World)
        → seen ns name (env.secrets.get ns name w).1 ≡ seen ns name w)
      → (token loaded : String) (t : Session env.World)
      → entries_in t ≡ some (build_secret store token).entries
      → (load env store t).0 ≡ ok loaded
      → loaded ≡ token
  unfolding load or_return get build_secret
  load-token quiet token loaded t held h = grind (
    arith,
    laws.get_ok store.namespace store.secret_name t.world,
    laws.get_absent store.namespace store.secret_name t.world,
    quiet store.namespace store.secret_name t.world,
  )

  -- When the API for Secrets obeys its laws and a read changes no Secret, a `Load` that succeeds after
  -- a successful `Save` returns the token that was saved, as long as the Secret's data were not
  -- changed in between.
  pub load-save :
      ((ns name : String) (w : env.World)
        → seen ns name (env.secrets.get ns name w).1 ≡ seen ns name w)
      → (token loaded : String) (s t : Session env.World) → (save env store token s).0 ≡ ok tt
      → entries_in t ≡ entries_in (save env store token s).1
      → (load env store t).0 ≡ ok loaded
      → loaded ≡ token
  load-save quiet token loaded s t saved same =
      load-token quiet token loaded t (same ∙ save-entries token s saved)
