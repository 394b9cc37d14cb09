-- ===== src/Reconciler/Naming.antt =====
-- internal/reconciler/naming.go, and the labels that the reconcilers share.
pub mod Labels
use Prim.Native.Char.{Char}
use hydra_operator.Base.{String, ◌<>◌, [], ◌∷◌}
use hydra_operator.Base.Text.{to_lower}
use hydra_operator.Base.Dict.{Dict}

-- `KsvcNameFor`
unfoldable pub ksvc_name_for : (Char → Char) → String → String
ksvc_name_for wide container_id = "ksvc-" <> to_lower wide container_id

abbrev pub managed_by : Dict String
managed_by = ("app.kubernetes.io/managed-by", "hydra-operator") ∷ []

-- The labels of an object that belongs to a container.
abbrev pub agent_labels : String → Dict String
agent_labels id =
    ("app.kubernetes.io/managed-by", "hydra-operator") ∷ ("hydra.io/agent-id", id) ∷ []
