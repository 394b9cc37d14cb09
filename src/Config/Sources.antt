-- ===== src/Config/Sources.antt =====
-- Where a loaded configuration comes from: the environment, the file and the defaults.
use Prim.Native.Char.{Char}
use hydra_operator.Base.{String, ◌≡◌, refl, Option, none, some, ok, err, arith, if◌then◌else◌, ◌∙◌}
use hydra_operator.Base.Dict.{lookup}
use hydra_operator.Config.Defs.{Config, validate}
use hydra_operator.Config.Validity.{IsUsable, validate_iff}
use hydra_operator.Config.Load.{
  Viper, Setup, Value, literal, number, setup_for, accept_read, finish_load, load,
}

-- The file that viper has read, if it has read one.
abbrev pub file_of : (v : Viper) → Setup → Option v.File
file_of v setup = elim (v.read_in_config setup) [ ok file ↦ some file | err _ ↦ none ]

module _ (wide : Char → Char) (v : Viper) where
  finish_load_ok :
      (setup : Setup) (file : Option v.File) (cfg : Config)
      → finish_load wide v setup file ≡ ok cfg
      → (v.unmarshal setup file ≡ ok cfg) × (validate wide cfg ≡ ok tt)
  unfolding finish_load
  finish_load_ok setup file cfg h = (ground arith, ground arith)

  accept_read_ok :
      (path : String) (file : Option v.File)
      → accept_read wide v path (v.read_in_config (setup_for path)) ≡ ok file
      → file ≡ file_of v (setup_for path)
  accept_read_ok path file h = ground arith

  load_ok :
      (path : String) (cfg : Config)
      → load wide v path ≡ ok cfg
      → finish_load wide v (setup_for path) (file_of v (setup_for path)) ≡ ok cfg
  unfolding load
  load_ok path cfg h = ground (arith, accept_read_ok path)

  -- A configuration that `Load` returns is usable, and it is what viper makes of the settings of the
  -- code and of the file that was read, if one was.
  pub load-IsUsable :
      (path : String) (cfg : Config)
      → load wide v path ≡ ok cfg
      → IsUsable wide cfg × (v.unmarshal (setup_for path) (file_of v (setup_for path)) ≡ ok cfg)
  load-IsUsable path cfg h =
      let (made, valid) = finish_load_ok (setup_for path) _ cfg (load_ok path cfg h) in
      ((validate_iff wide cfg).0 valid, made)

-- The first of several sources that gives a text.
abbrev pub first_of : Option String → Option String → Option String
first_of (some s) rest = some s
first_of none rest = rest

abbrev pub text_or : Option String → String → String
text_or (some s) other = s
text_or none other = other

abbrev default_text : Option Value → String
default_text (some (literal s)) = s
default_text (some (number _)) = ""
default_text none = ""

-- What viper documents of the names that `AutomaticEnv` derives, from the prefix, the replacer of
-- `SetEnvKeyReplacer` and the key: the prefix, an underscore, and the key after the replacement in
-- capitals. With the prefix of `Load`, the section `hydra` is in the name a second time.
pub record Derives (derive : String → String × String → String → String) : Type 0 where
  pub url : derive "HYDRA" (".", "_") "hydra.url" ≡ "HYDRA_HYDRA_URL"
  pub cluster_id : derive "HYDRA" (".", "_") "hydra.cluster_id" ≡ "HYDRA_HYDRA_CLUSTER_ID"
  pub registration_token :
      derive "HYDRA" (".", "_") "hydra.registration_token" ≡ "HYDRA_HYDRA_REGISTRATION_TOKEN"

-- What viper documents of a key that holds a text: the variable of the name that `AutomaticEnv`
-- derives, then the one that is bound to the key, then the file, then the default. `vars` are the
-- variables that are set and not empty, `derive` gives the derived name, and `written` is what a file
-- says of a key.
module _ (v : Viper) (vars : String → Option String)
    (derive : String → String × String → String → String)
    (written : v.File → String → Option String) where
  abbrev in_file : Option v.File → String → Option String
  in_file none key = none
  in_file (some file) key = written file key

  abbrev bound_var : Option String → Option String
  bound_var none = none
  bound_var (some name) = vars name

  abbrev pub setting : Setup → Option v.File → String → String
  setting setup file key =
      text_or
        (first_of
          (if setup.automatic_env
            then vars (derive setup.env_prefix setup.env_key_replacer key)
            else none)
          (first_of (bound_var (lookup key setup.bound)) (in_file file key)))
        (default_text (lookup key setup.defaults))

  pub record Resolves : Type 0 where
    pub url :
        (setup : Setup) (file : Option v.File) (cfg : Config)
        → v.unmarshal setup file ≡ ok cfg
        → cfg.hydra.url ≡ setting setup file "hydra.url"
    pub cluster_id :
        (setup : Setup) (file : Option v.File) (cfg : Config)
        → v.unmarshal setup file ≡ ok cfg
        → cfg.hydra.cluster_id ≡ setting setup file "hydra.cluster_id"
    pub registration_token :
        (setup : Setup) (file : Option v.File) (cfg : Config)
        → v.unmarshal setup file ≡ ok cfg
        → cfg.hydra.registration_token ≡ setting setup file "hydra.registration_token"

  -- The derived variable, the bound one and the file, in this order, or the empty text.
  abbrev pub sourced : String → String → String → String → String
  sourced path derived bound key =
      text_or
        (first_of (vars derived) (first_of (vars bound) (in_file (file_of v (setup_for path)) key)))
        ""

  -- When viper derives names and resolves keys as it documents, a configuration that `Load` returns has
  -- the URL, the cluster ID and the registration token of the variables HYDRA_URL, HYDRA_CLUSTER_ID
  -- and HYDRA_REGISTRATION_TOKEN, unless the variable of the same name behind a second HYDRA_ is set,
  -- which goes before it; where neither is set, the file's; and the empty text where the file has
  -- none either.
  pub load-environment :
      (wide : Char → Char)
      → Resolves
      → Derives derive
      → (path : String) (cfg : Config) → load wide v path ≡ ok cfg
      → (cfg.hydra.url ≡ sourced path "HYDRA_HYDRA_URL" "HYDRA_URL" "hydra.url")
        × (cfg.hydra.cluster_id
            ≡ sourced path "HYDRA_HYDRA_CLUSTER_ID" "HYDRA_CLUSTER_ID" "hydra.cluster_id")
        × (cfg.hydra.registration_token
            ≡ sourced path "HYDRA_HYDRA_REGISTRATION_TOKEN" "HYDRA_REGISTRATION_TOKEN"
                "hydra.registration_token")
  unfolding setup_for
  load-environment wide resolves derives path cfg h =
      let (usable, made) = load-IsUsable wide v path cfg h in
      (
        resolves.url _ _ cfg made ∙ rw derives.url refl,
        resolves.cluster_id _ _ cfg made ∙ rw derives.cluster_id refl,
        resolves.registration_token _ _ cfg made ∙ rw derives.registration_token refl,
      )
