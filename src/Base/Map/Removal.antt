-- ===== src/Base/Map/Removal.antt =====
-- Removing a list of keys, one after another.
use Prim.Native.Nat.{◌+◌}
use mathlib.Core.Path.{◌≡◌, refl}
use mathlib.Core.Bool.{Bool, true, not}
use mathlib.Core.Option.{none}
use mathlib.Core.List.{List, [], ◌∷◌}
use native.Mathlib.Omega.{arith}
use ocaml_temporal.Base.Tests.{if◌then◌else◌}
use ocaml_temporal.Base.Lists.{length}
use ocaml_temporal.Base.Keys.{Eq}
use ocaml_temporal.Base.Map.Defs.{Map, get, contains, remove, keys, retain, elem, Distinct}
use ocaml_temporal.Base.Map.Laws.{
  get-remove, get-retain, elem-keys, keep_if, remove-Distinct, retain-Distinct, beq_refl,
}
use ocaml_temporal.Base.Map.Counts.{length-remove}

module _ {K V : Type 0} ⦃e : Eq K⦄ where
  unfoldable pub remove_all : List K → Map K V → Map K V
  remove_all [] m = m
  remove_all (k ∷ ks) m = remove_all ks (remove k m)

  -- Each listed key is still there when its turn comes.
  abbrev pub IsSubkeys : List K → Map K V → Type 0
  IsSubkeys [] m = Unit {0}
  IsSubkeys (k ∷ ks) m = (contains k m ≡ true) × IsSubkeys ks (remove k m)

  pub get-remove_all :
      (ks : List K) (j : K) (m : Map K V)
      → get j (remove_all ks m) ≡ (if elem j ks then none else get j m)
  unfolding remove_all elem
  get-remove_all [] j m = refl
  get-remove_all (k ∷ ks) j m = ground (arith, get-remove_all ks j (remove k m), get-remove k j m)

  pub remove_all-Distinct : (ks : List K) (m : Map K V) → Distinct m → Distinct (remove_all ks m)
  unfolding remove_all
  remove_all-Distinct [] m h = h
  remove_all-Distinct (k ∷ ks) m h = remove_all-Distinct ks (remove k m) (remove-Distinct k m h)

  pub length-remove_all :
      (ks : List K) (m : Map K V)
      → Distinct m
      → IsSubkeys ks m
      → length m ≡ length (remove_all ks m) + length ks
  unfolding remove_all
  length-remove_all [] m d h = omega arith
  length-remove_all (k ∷ ks) m d h =
      ground
        (arith, length-remove k m d, length-remove_all ks (remove k m) (remove-Distinct k m d) h.1)

module _ {K V : Type 0} ⦃e : Eq K⦄ where
  keys-IsSubkeys :
      (n m : Map K V)
      → Distinct n
      → ((j : K) → contains j n ≡ true → contains j m ≡ true)
      → IsSubkeys (keys n) m
  unfolding keys get
  keys-IsSubkeys [] m d h = tt
  keys-IsSubkeys ((k, v) ∷ n) m d h = (
    h k (ground (arith, beq_refl k)),
    keys-IsSubkeys n (remove k m) d.1 λ j g. ground (arith, h j, get-remove k j m, e.beq_iff k j),
  )

  pub keys-retain-IsSubkeys :
      (p : K → V → Bool) (m : Map K V) → Distinct m → IsSubkeys (keys (retain p m)) m
  keys-retain-IsSubkeys p m d =
      keys-IsSubkeys (retain p m) m (retain-Distinct p m d)
        λ j h. ground (arith, get-retain p j m d)

  -- Removing all that pass a test leaves what fails it.
  pub get-remove_all-retain :
      (p : K → V → Bool) (j : K) (m : Map K V)
      → Distinct m
      → get j (remove_all (keys (retain p m)) m) ≡ keep_if (λ v. not (p j v)) (get j m)
  get-remove_all-retain p j m d =
      ground (
        arith,
        get-remove_all (keys (retain p m)) j m,
        elem-keys j (retain p m),
        get-retain p j m d,
      )
