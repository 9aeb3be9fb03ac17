-- ===== src/Prelude/Floats.antt =====
-- The 64-bit floats of the language, as a parameter: the operations that the code uses of them.
use sipbot.Prelude.{ℕ, Bool, List}
use sipbot.Prelude.Text.{Text}

pub record Floats : Type 1 where
  pub Float : Type 0
  pub of_nat : ℕ → Float  -- `as f64`
  pub div : Float → Float → Float
  pub mul : Float → Float → Float
  pub add : Float → Float → Float
  pub sub : Float → Float → Float
  pub neg : Float → Float
  pub sqrt : Float → Float
  pub abs : Float → Float
  pub min_float : Float → Float → Float
  pub sum : List Float → Float
  pub is_less : Float → Float → Bool
  pub literal : Text → Float
  pub fixed : ℕ → Float → Text  -- `{:.2}` and the like
