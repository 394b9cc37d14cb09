-- ===== src/Kube/Names.antt =====
-- `metadata.name` of an untyped object.
use hydra_operator.Base.{String, Option, none, some, ◌==◌, if◌then◌else◌}
use hydra_operator.Kube.Objects.{Unstructured, Json, text, object, Fields, end, field}

abbrev field_of : String → Fields → Option Json
field_of name end = none
field_of name (field k v rest) = if k == name then some v else field_of name rest

abbrev pub inner : String → Option Json → Option Json
inner name (some (object fields)) = field_of name fields
inner name _ = none

abbrev as_text : Option Json → String
as_text (some (text s)) = s
as_text _ = ""

-- `metadata.name`
abbrev pub object_name : Unstructured → String
object_name u = as_text (inner "name" (inner "metadata" (some u.content)))
