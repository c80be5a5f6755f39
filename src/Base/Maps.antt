-- ===== src/Base/Maps.antt =====
-- A JavaScript `Map` with string keys: its entries in the order of insertion.
use mathlib.Core.Path.{◌≡◌, refl}
use mathlib.Core.Option.{Option, none, some}
use mathlib.Core.List.{List, [], ◌∷◌}
use native.Mathlib.Omega.{arith}
use node_raft_rsm.Base.Tests.{if◌then◌else◌}
use node_raft_rsm.Base.Texts.{Text, same}

module _ {ℓ} {V : Type ℓ} where
  abbrev pub get : List (Text × V) → Text → Option V
  get [] k = none
  get ((j, v) ∷ m) k = let rest = get m k in if same j k then some v else rest

  abbrev pub put : List (Text × V) → Text → V → List (Text × V)
  put [] k v = (k, v) ∷ []
  put ((j, w) ∷ m) k v = let rest = put m k v in if same j k then (j, v) ∷ m else (j, w) ∷ rest

  abbrev pub delete : List (Text × V) → Text → List (Text × V)
  delete [] k = []
  delete ((j, w) ∷ m) k = let rest = delete m k in if same j k then m else (j, w) ∷ rest

  pub get-put :
      (m : List (Text × V)) (k j : Text) (v : V)
      → get (put m k v) j ≡ (if same k j then some v else get m j)
  get-put [] k j v = refl
  get-put ((i, w) ∷ m) k j v = ground (arith, get-put m k j v)
