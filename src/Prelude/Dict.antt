-- ===== src/Prelude/Dict.antt =====
-- Python's `dict` in insertion order: a write to a key that is there keeps its place. The key test
-- is a parameter.
pub mod Laws
use megaraid_dashboard.Prelude.Tests.{if◌then◌else◌}
use mathlib.Core.Bool.{Bool, true, false}
use mathlib.Core.Option.{Option, none, some}
use mathlib.Core.List.{List, [], ◌∷◌}

module _ {K V : Type 0} (eq : K → K → Bool) where
  abbrev pub get : K → List (K × V) → Option V
  get k [] = none
  get k ((j, v) ∷ d) = if eq j k then some v else get k d

  abbrev pub put : K → V → List (K × V) → List (K × V)
  put k v [] = (k, v) ∷ []
  put k v ((j, w) ∷ d) = if eq j k then (j, v) ∷ d else (j, w) ∷ put k v d

  abbrev pub put_all : (V → K) → List V → List (K × V) → List (K × V)
  put_all key [] d = d
  put_all key (x ∷ xs) d = put_all key xs (put (key x) x d)
