-- ===== src/Prelude/Text.antt =====
-- Literals of the source as lists of character codes, and lists of bytes compared.
use Prim.Native.Nat.{ℕ}
use Prim.Native.Char.{code}
use Prim.Native.String.{String}
use mathlib.Core.List.{List, [], ◌∷◌}
use native.Mathlib.Decide.{ℕ_discrete}

-- The code points of a text: its bytes, if it is ASCII.
abbrev pub codes : String → List ℕ
codes String.[] = []
codes (String.◌∷◌ c s) = code c ∷ codes s

Bytes_equality : Discrete (List ℕ)
Bytes_equality = hlevel ℕ_discrete

unfoldable pub Bytes-discrete : Discrete (List ℕ)
unfolding Bytes_equality
Bytes-discrete = Bytes_equality
