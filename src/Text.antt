-- ===== src/Text.antt =====
-- The bytes of the string literals of the source.
use mass_os.Prelude.{ℕ, List, [], ◌∷◌}
use Prim.Native.Char.{code}
use Prim.Native.String.{String}

abbrev pub codes : String → List ℕ
codes String.[] = []
codes (String.◌∷◌ c s) = code c ∷ codes s
