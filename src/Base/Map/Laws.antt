-- ===== src/Base/Map/Laws.antt =====
-- What a lookup finds after each operation.
use mathlib.Core.Path.{◌≡◌, refl}
use mathlib.Core.Bool.{Bool, true, ◌||◌}
use mathlib.Core.Option.{Option, none, some}
use mathlib.Core.List.{List, [], ◌∷◌}
use native.Mathlib.Omega.{arith}
use ocaml_temporal.Base.Tests.{if◌then◌else◌}
use ocaml_temporal.Base.Keys.{Eq}
use ocaml_temporal.Base.Map.Defs.{
  Map, Set, get, contains, insert, remove, keys, retain, extend, elem, add, Distinct,
}

-- A value that passes the test.
abbrev pub keep_if : {A : Type 0} → (A → Bool) → Option A → Option A
keep_if p none = none
keep_if p (some a) = if p a then some a else none

module _ {K : Type 0} ⦃e : Eq K⦄ where
  pub beq_refl : (k : K) → e.beq k k ≡ true
  beq_refl k = (e.beq_iff k k).1 refl

module _ {K V : Type 0} ⦃e : Eq K⦄ where
  pub get-insert :
      (k j : K) (v : V) (m : Map K V)
      → get j (insert k v m) ≡ (if e.beq k j then some v else get j m)
  unfolding get insert
  get-insert k j v [] = refl
  get-insert k j v ((i, w) ∷ m) = ground (
    arith,
    e.beq_iff k j,
    e.beq_iff i k,
    e.beq_iff i j,
    beq_refl k,
    beq_refl j,
    get-insert k j v m,
  )

  pub get-remove :
      (k j : K) (m : Map K V) → get j (remove k m) ≡ (if e.beq k j then none else get j m)
  unfolding get remove
  get-remove k j [] = ground arith
  get-remove k j ((i, w) ∷ m) =
      ground (arith, e.beq_iff k j, e.beq_iff i k, e.beq_iff i j, beq_refl j, get-remove k j m)

  pub insert-Distinct : (k : K) (v : V) (m : Map K V) → Distinct m → Distinct (insert k v m)
  unfolding insert get
  insert-Distinct k v [] h = (refl, tt)
  insert-Distinct k v ((i, w) ∷ m) h =
      ground (arith, insert-Distinct k v m h.1, get-insert k i v m, e.beq_iff k i, e.beq_iff i k)

  pub remove-Distinct : (k : K) (m : Map K V) → Distinct m → Distinct (remove k m)
  unfolding remove get
  remove-Distinct k [] h = tt
  remove-Distinct k ((i, w) ∷ m) h =
      ground (arith, remove-Distinct k m h.1, get-remove k i m, e.beq_iff k i, e.beq_iff i k)

  pub get-retain :
      (p : K → V → Bool) (j : K) (m : Map K V)
      → Distinct m
      → get j (retain p m) ≡ keep_if (p j) (get j m)
  unfolding get retain
  get-retain p j [] h = refl
  get-retain p j ((i, w) ∷ m) h = ground (arith, e.beq_iff i j, get-retain p j m h.1)

  pub retain-Distinct : (p : K → V → Bool) (m : Map K V) → Distinct m → Distinct (retain p m)
  unfolding retain get
  retain-Distinct p [] h = tt
  retain-Distinct p ((i, w) ∷ m) h = ground (arith, retain-Distinct p m h.1, get-retain p i m h.1)

  pub elem-keys : (j : K) (m : Map K V) → elem j (keys m) ≡ contains j m
  unfolding elem keys get
  elem-keys j [] = refl
  elem-keys j ((i, w) ∷ m) = ground (arith, elem-keys j m)

module _ {K : Type 0} ⦃e : Eq K⦄ where
  pub contains-extend :
      (j : K) (ks : List K) (s : Set K) → contains j (extend ks s) ≡ (elem j ks || contains j s)
  unfolding extend elem
  contains-extend j [] s = refl
  contains-extend j (k ∷ ks) s = ground (arith, contains-extend j ks (add k s), get-insert k j tt s)

  pub extend-Distinct : (ks : List K) (s : Set K) → Distinct s → Distinct (extend ks s)
  unfolding extend
  extend-Distinct [] s h = h
  extend-Distinct (k ∷ ks) s h = extend-Distinct ks (add k s) (insert-Distinct k tt s h)
