-- ===== src/Prelude/Texts.antt =====
-- Texts that differ by evaluation, and the code points of a text.
use Prim.Native.Nat.{ℕ}
use Prim.Native.Char.{code}
use Prim.Native.String.{String, ◌++◌}
use mathlib.Core.Path.{◌≡◌}
use mathlib.Core.Logic.{◌≢◌}
use mathlib.Core.Bool.{false}
use mathlib.Core.List.{List, [], ◌∷◌}
use text.Mathlib.Text.{◌==◌}
use text.Mathlib.TextEquality.{eq_iff}
use native.Mathlib.Omega.{arith}

pub ne_of_str_eq : (a b : String) → (a == b) ≡ false → a ≢ b
ne_of_str_eq a b h e = ground (arith, eq_iff a b)

abbrev pub codes : String → List ℕ
codes String.[] = []
codes (String.◌∷◌ c s) = code c ∷ codes s

-- The text of an f-string, from its parts.
abbrev pub concat : List String → String
concat [] = ""
concat (s ∷ ss) = s ++ concat ss
