-- ===== src/Prelude/Dict.antt =====
-- Python's `dict` with text keys, as the list of its entries: the first entry of a key counts.
use mathlib.Core.Option.{Option, none, some}
use mathlib.Core.List.{List, [], ◌∷◌}
use Prim.Native.String.{String}
use mirror_memory.Prelude.Text.{str_eq}
use mirror_memory.Prelude.Tests.{if◌then◌else◌}

abbrev pub Dict {ℓ} : Type ℓ → Type ℓ
Dict V = List (String × V)

-- `d.get(k)`
abbrev pub get {ℓ} : {V : Type ℓ} → Dict V → String → Option V
get [] k = none
get ((j, v) ∷ d) k = if str_eq j k then some v else get d k
