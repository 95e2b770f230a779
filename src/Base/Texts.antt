-- ===== src/Base/Texts.antt =====
-- Texts of the program, by the codes of their characters.
use Prim.Native.Nat.{ℕ}
use Prim.Native.Char.{code}
use Prim.Native.String.{String}
use mathlib.Core.List.{List, [], ◌∷◌}

abbrev pub codes : String → List ℕ
codes String.[] = []
codes (String.◌∷◌ c text) = code c ∷ codes text
