-- ===== src/Logging.antt =====
-- internal/logging/logging.go. The logger of zerolog is what `New` chooses of it: a level, and one of
-- two writers. Both carry a timestamp.
use Prim.Native.Char.{Char}
use hydra_operator.Base.{String, Bool, Option, none, some, ◌==◌}
use hydra_operator.Base.Text.{to_lower}
pub mod Levels

pub record Zerolog : Type 1 where
  pub Level : Type 0
  pub parse_level : String → Option Level
  pub info_level : Level

pub record Logger (Level : Type 0) : Type 0 where
  pub level : Level
  pub console : Bool

unfoldable pub new_logger : (Char → Char) → (z : Zerolog) → String → String → Logger z.Level
new_logger wide z level format = record {
  level = elim (z.parse_level (to_lower wide level)) [ none ↦ z.info_level | some l ↦ l ];
  console = to_lower wide format == "console";
}
