-- ===== src/Prelude/Strings.antt =====
-- Literals as the bytes of a C string.
use Prim.Native.Char.{code}
use Prim.Native.String.{String}
use cgroup_research.Prelude.Word.{Text}
use mathlib.Core.List.{[], ◌∷◌}

abbrev pub codes : String → Text
codes String.[] = []
codes (String.◌∷◌ c s) = code c ∷ codes s
