-- ===== src/Base/Map/Counts.antt =====
-- How many entries each operation leaves.
use Prim.Native.Nat.{ℕ, suc, ◌+◌, ◌≤◌}
use mathlib.Core.Path.{◌≡◌, refl}
use mathlib.Core.Bool.{Bool, not}
use mathlib.Core.Option.{Option, none, some}
use mathlib.Core.List.{[], ◌∷◌}
use native.Mathlib.Omega.{arith}
use ocaml_temporal.Base.Tests.{if◌then◌else◌}
use ocaml_temporal.Base.Lists.{length}
use ocaml_temporal.Base.Keys.{Eq}
use ocaml_temporal.Base.Map.Defs.{
  Map, get, contains, insert, remove, keys, retain, count_if, Distinct,
}

module _ {K V : Type 0} ⦃e : Eq K⦄ where
  pub length-insert :
      (k : K) (v : V) (m : Map K V)
      → length (insert k v m) ≡ (if contains k m then length m else suc (length m))
  unfolding insert get
  length-insert k v [] = refl
  length-insert k v ((i, w) ∷ m) = ground (arith, length-insert k v m)

  remove_absent : (k : K) (m : Map K V) → get k m ≡ none → remove k m ≡ m
  unfolding remove get
  remove_absent k [] h = refl
  remove_absent k ((i, w) ∷ m) h = ground (arith, remove_absent k m)

  pub length-remove :
      (k : K) (m : Map K V)
      → Distinct m
      → length m ≡ (if contains k m then suc (length (remove k m)) else length (remove k m))
  unfolding remove get
  length-remove k [] h = refl
  length-remove k ((i, w) ∷ m) h =
      ground (arith, e.beq_iff i k, remove_absent k m, length-remove k m h.1)

module _ {K V : Type 0} where
  pub length-retain :
      (p : K → V → Bool) (m : Map K V)
      → length (retain p m) + count_if (λ k v. not (p k v)) m ≡ length m
  unfolding retain count_if
  length-retain p [] = omega arith
  length-retain p ((i, w) ∷ m) = ground (arith, length-retain p m)

  pub length-keys : (m : Map K V) → length (keys m) ≡ length m
  unfolding keys
  length-keys [] = refl
  length-keys ((i, w) ∷ m) = ground (arith, length-keys m)

-- One if the entry is there and passes the test.
abbrev pub weigh : {V : Type 0} → (V → Bool) → Option V → ℕ
weigh p none = 0
weigh p (some v) = if p v then 1 else 0

module _ {K V : Type 0} ⦃e : Eq K⦄ where
  pub count_if-insert :
      (p : V → Bool) (k : K) (v : V) (m : Map K V)
      → count_if (λ _. p) (insert k v m) + weigh p (get k m)
        ≡ count_if (λ _. p) m + weigh p (some v)
  unfolding insert get count_if
  count_if-insert p k v [] = ground arith
  count_if-insert p k v ((i, w) ∷ m) = ground (arith, count_if-insert p k v m)

  pub count_if-remove :
      (p : V → Bool) (k : K) (m : Map K V)
      → Distinct m
      → count_if (λ _. p) m ≡ count_if (λ _. p) (remove k m) + weigh p (get k m)
  unfolding remove get count_if
  count_if-remove p k [] h = refl
  count_if-remove p k ((i, w) ∷ m) h =
      ground (arith, e.beq_iff i k, remove_absent k m, count_if-remove p k m h.1)

  pub count_if-length : (p : V → Bool) (m : Map K V) → count_if (λ _. p) m ≤ length m
  unfolding count_if
  count_if-length p [] = omega arith
  count_if-length p ((i, w) ∷ m) = ground (arith, count_if-length p m)
