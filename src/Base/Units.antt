-- ===== src/Base/Units.antt =====
-- A text that the program looks into: the list of its UTF-16 code units.
use Prim.Native.Nat.{ℕ}
use mathlib.Core.Bool.{Bool, ◌&&◌, ◌||◌}
use mathlib.Core.List.{List, [], ◌∷◌, reverse}
use labrastro_vscode_extensi.Base.Tests.{eqb, leb, if◌then◌else◌}

abbrev pub Units : Type 0
Units = List ℕ

-- White space and line ends, as `trim` of the language sees them.
unfoldable pub is_space : ℕ → Bool
is_space c =
    (leb 9 c && leb c 13)
    || eqb c 32
    || eqb c 0xa0
    || eqb c 0x1680
    || (leb 0x2000 c && leb c 0x200a)
    || eqb c 0x2028
    || eqb c 0x2029
    || eqb c 0x202f
    || eqb c 0x205f
    || eqb c 0x3000
    || eqb c 0xfeff

unfoldable pub trim_start : Units → Units
trim_start [] = []
trim_start (c ∷ cs) = if is_space c then trim_start cs else c ∷ cs

-- `s.trim()`
unfoldable pub trim : Units → Units
trim s = reverse (trim_start (reverse (trim_start s)))
