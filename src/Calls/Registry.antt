-- ===== src/Calls/Registry.antt =====
-- The registry: lookups after a removal, and the count of each owner.
use ocaml_temporal.Base.{
  ℕ, ◌-◌, ◌≤◌, ◌≡◌, ◌≢◌, Bool, Option, none, some, List, [], ◌∷◌, nat_eq, ◌==◌, if◌then◌else◌,
  length, arith, Option-cases, inl, inr,
}
use ocaml_temporal.Base.Map.{
  Map, get, count_if, Distinct, get-insert, get-remove, insert-Distinct, remove-Distinct,
  count_if-remove, length-remove,
}
use ocaml_temporal.Calls.State.{
  RegisteredCall, Registry, owned_entry, remove_call, remove_calls, remove_entry, discount, or_zero,
}

abbrev pub is_owned_by : ℕ → RegisteredCall → Bool
is_owned_by owner c = c.owner == owner

-- How many entries an owner has.
abbrev pub tally : ℕ → Registry → ℕ
tally owner r = count_if (λ _. is_owned_by owner) r.calls

-- Each owner's count is the number of its entries, and no owner without entries has a row.
pub record IsCounted (r : Registry) : Type 0 where
  pub calls_distinct : Distinct r.calls
  pub owners_distinct : Distinct r.per_owner
  pub counted : (o : ℕ) → or_zero (get o r.per_owner) ≡ tally o r
  pub positive : (o : ℕ) → get o r.per_owner ≢ some 0

pub owned_entry_cases {ℓ} :
    (Q : Option RegisteredCall → Type ℓ) (owner call : ℕ) (r : Registry)
    → ((c : RegisteredCall) → get call r.calls ≡ some c → c.owner ≡ owner → Q (some c))
    → (((c : RegisteredCall) → get call r.calls ≡ some c → c.owner ≢ owner) → Q none)
    → Q (owned_entry owner call r)
unfolding owned_entry
owned_entry_cases Q owner call r mine foreign = elim (Option-cases (get call r.calls)) [
  | inl e ↦ rw (e, owned_entry) (foreign λ c h. ground (arith, e))
  | inr (c, e) ↦ ground (arith, owned_entry, mine c e, foreign)
]

pub remove_call_cases {ℓ} :
    (Q : Registry × Option RegisteredCall → Type ℓ) (owner call : ℕ) (r : Registry)
    → ((c : RegisteredCall)
        → get call r.calls ≡ some c
        → c.owner ≡ owner
        → Q (remove_entry call c r, some c))
    → (((c : RegisteredCall) → get call r.calls ≡ some c → c.owner ≢ owner) → Q (r, none))
    → Q (remove_call owner call r)
unfolding remove_call
remove_call_cases Q owner call r mine foreign =
    owned_entry_cases
      (λ o. Q (elim o [ none ↦ (r, none) | some c ↦ (remove_entry call c r, some c) ])) owner call r
      mine foreign

discount-Distinct : (w : ℕ) (m : Map ℕ ℕ) → Distinct m → Distinct (discount w m)
discount-Distinct w m d = elim (Option-cases (get w m)) [
  | inl e ↦ rw (discount, e) d
  | inr (n, e) ↦
      rw (discount, e) (ground (arith, remove-Distinct w m d, insert-Distinct w (n - 1) m d))
]

get-discount :
    (w o : ℕ) (m : Map ℕ ℕ)
    → get o (discount w m) ≡ (
        if w == o
        then elim (get o m) [ none ↦ none | some n ↦ if n - 1 == 0 then none else some (n - 1) ]
        else get o m)
get-discount w o m = elim (Option-cases (get w m)) [
  | inl e ↦ rw (discount, e) (ground (arith, e))
  | inr (n, e) ↦ rw (discount, e) (ground (arith, e, get-remove w o m, get-insert w o (n - 1) m))
]

remove_entry-IsCounted :
    (call : ℕ) (c : RegisteredCall) (r : Registry)
    → get call r.calls ≡ some c
    → IsCounted r
    → IsCounted (remove_entry call c r)
remove_entry-IsCounted call c r e v = record {
  calls_distinct = remove-Distinct call r.calls v.calls_distinct;
  owners_distinct = discount-Distinct c.owner r.per_owner v.owners_distinct;
  counted = λ o. ground (
    arith,
    get-discount c.owner o r.per_owner,
    count_if-remove (is_owned_by o) call r.calls v.calls_distinct,
    v.counted o,
    v.positive o,
  );
  positive = λ o. ground (arith, get-discount c.owner o r.per_owner, v.positive o);
}

pub remove_call-IsCounted :
    (owner call : ℕ) (r : Registry) → IsCounted r → IsCounted ((remove_call owner call r).0)
remove_call-IsCounted owner call r v =
    remove_call_cases (λ x. IsCounted (x.0)) owner call r
      (λ c e _. remove_entry-IsCounted call c r e v) λ _. v

pub remove_calls-IsCounted :
    (owner : ℕ) (ids : List ℕ) (r : Registry)
    → IsCounted r
    → IsCounted ((remove_calls owner ids r).0)
remove_calls-IsCounted owner [] r v = v
remove_calls-IsCounted owner (id ∷ ids) r v =
    remove_calls-IsCounted owner ids ((remove_call owner id r).0)
      (remove_call-IsCounted owner id r v)

-- An entry of what is left was there before.
pub get-remove_call :
    (owner call id : ℕ) (r : Registry) (c : RegisteredCall)
    → get id ((remove_call owner call r).0).calls ≡ some c
    → get id r.calls ≡ some c
get-remove_call owner call id r c =
    remove_call_cases (λ x. get id (x.0).calls ≡ some c → get id r.calls ≡ some c) owner call r
      (λ _ _ _ h. ground (arith, get-remove call id r.calls)) λ _ h. h

pub get-remove_calls :
    (owner : ℕ) (ids : List ℕ) (id : ℕ) (r : Registry) (c : RegisteredCall)
    → get id ((remove_calls owner ids r).0).calls ≡ some c
    → get id r.calls ≡ some c
get-remove_calls owner [] id r c h = h
get-remove_calls owner (j ∷ ids) id r c h =
    get-remove_call owner j id r c (get-remove_calls owner ids id ((remove_call owner j r).0) c h)

pub length-remove_call :
    (owner call : ℕ) (r : Registry)
    → IsCounted r
    → length ((remove_call owner call r).0).calls ≤ length r.calls
length-remove_call owner call r v =
    remove_call_cases (λ x. length (x.0).calls ≤ length r.calls) owner call r
      (λ _ _ _. ground (arith, length-remove call r.calls v.calls_distinct)) λ _. omega arith

pub length-remove_calls :
    (owner : ℕ) (ids : List ℕ) (r : Registry)
    → IsCounted r
    → length ((remove_calls owner ids r).0).calls ≤ length r.calls
length-remove_calls owner [] r v = omega arith
length-remove_calls owner (id ∷ ids) r v = omega (
  arith,
  length-remove_call owner id r v,
  length-remove_calls owner ids ((remove_call owner id r).0) (remove_call-IsCounted owner id r v),
)
