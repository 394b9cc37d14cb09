-- ===== src/Base/Dict.antt =====
-- Go's `map[string]V`, as an association list in the order of insertion.
use Prim.Native.String.{String}
use mathlib.Core.Path.{◌≡◌, refl}
use mathlib.Core.Option.{Option, none, some}
use mathlib.Core.List.{List, [], ◌∷◌}
use native.Mathlib.Omega.{arith}
use text.Mathlib.Text.{◌==◌}
use text.Mathlib.TextEquality.{eq_iff}
use hydra_operator.Base.Tests.{if◌then◌else◌}

abbrev pub Dict : Type 0 → Type 0
Dict V = List (String × V)

module _ {V : Type 0} where
  -- `m[name]`, with `none` where the name is absent
  abbrev pub lookup : String → Dict V → Option V
  lookup name [] = none
  lookup name (entry ∷ rest) = if name == entry.0 then some entry.1 else lookup name rest

  -- `m[name] = value`: the entry of that name is replaced where it stands
  abbrev pub insert : String → V → Dict V → Dict V
  insert name value [] = (name, value) ∷ []
  insert name value (entry ∷ rest) =
      let later = insert name value rest in
      if name == entry.0 then (name, value) ∷ rest else entry ∷ later

  -- A lookup after an assignment finds what was assigned, and everything else as before.
  pub lookup-insert :
      (set_name name : String) (value : V) (dict : Dict V)
      → lookup name (insert set_name value dict)
        ≡ (if name == set_name then some value else lookup name dict)
  lookup-insert set_name name value [] = refl
  lookup-insert set_name name value (entry ∷ rest) = ground (
    arith,
    lookup-insert set_name name value rest,
    eq_iff name entry.0,
    eq_iff set_name entry.0,
    eq_iff name set_name,
  )
