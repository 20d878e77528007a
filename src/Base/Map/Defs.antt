-- ===== src/Base/Map/Defs.antt =====
-- The operations.
use Prim.Native.Nat.{ℕ, suc}
use mathlib.Core.Path.{◌≡◌}
use mathlib.Core.Bool.{Bool, false, ◌||◌}
use mathlib.Core.Option.{Option, none, some}
use mathlib.Core.List.{List, [], ◌∷◌}
use ocaml_temporal.Base.Tests.{if◌then◌else◌, is_some}
use ocaml_temporal.Base.Keys.{Eq}

abbrev pub Map : Type 0 → Type 0 → Type 0
Map K V = List (K × V)

-- A `HashSet` is a map to the unit type.
abbrev pub Set : Type 0 → Type 0
Set K = Map K (Unit {0})

module _ {K V : Type 0} ⦃e : Eq K⦄ where
  unfoldable pub get : K → Map K V → Option V
  get k [] = none
  get k ((j, v) ∷ m) = if e.beq j k then some v else get k m

  abbrev pub contains : K → Map K V → Bool
  contains k m = is_some (get k m)

  unfoldable pub insert : K → V → Map K V → Map K V
  insert k v [] = (k, v) ∷ []
  insert k v ((j, w) ∷ m) = if e.beq j k then (j, v) ∷ m else (j, w) ∷ insert k v m

  unfoldable pub remove : K → Map K V → Map K V
  remove k [] = []
  remove k ((j, v) ∷ m) = let rest = remove k m in if e.beq j k then rest else (j, v) ∷ rest

  -- Every key stands once.
  abbrev pub Distinct : Map K V → Type 0
  Distinct [] = Unit {0}
  Distinct ((k, v) ∷ m) = (get k m ≡ none) × Distinct m

module _ {K V : Type 0} where
  unfoldable pub keys : Map K V → List K
  keys [] = []
  keys ((k, v) ∷ m) = k ∷ keys m

  unfoldable pub retain : (K → V → Bool) → Map K V → Map K V
  retain p [] = []
  retain p ((k, v) ∷ m) = let rest = retain p m in if p k v then (k, v) ∷ rest else rest

  unfoldable pub count_if : (K → V → Bool) → Map K V → ℕ
  count_if p [] = 0
  count_if p ((k, v) ∷ m) = let rest = count_if p m in if p k v then suc rest else rest

module _ {K : Type 0} ⦃e : Eq K⦄ where
  unfoldable pub elem : K → List K → Bool
  elem k [] = false
  elem k (j ∷ js) = e.beq j k || elem k js

  abbrev pub add : K → Set K → Set K
  add k s = insert k tt s

  -- `HashSet::extend`.
  unfoldable pub extend : List K → Set K → Set K
  extend [] s = s
  extend (k ∷ ks) s = extend ks (add k s)
