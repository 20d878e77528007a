-- ===== src/Calls/Owned.antt =====
-- Whose entries a removal takes.
use ocaml_temporal.Base.{
  ℕ, ◌≡◌, none, List, [], ◌∷◌, nat_eq, ◌==◌, ◌&&◌, if◌then◌else◌, is_some, arith, inl, inr,
  Option-cases,
}
use ocaml_temporal.Base.Map.{get, retain, elem, get-remove, get-retain, elem-keys}
use ocaml_temporal.Calls.State.{
  Calls, Registry, owned_entry, unregister_owner, remove_call, remove_calls, owned_ids,
}
use ocaml_temporal.Calls.Registry.{remove_call_cases, IsCounted}
use ocaml_temporal.Calls.Consistent.{IsConsistent}

pub owned-remove_call :
    (o owner call id : ℕ) (r : Registry)
    → owned_entry owner id ((remove_call o call r).0)
      ≡ (if (o == owner) && (call == id) then none else owned_entry owner id r)
unfolding owned_entry
owned-remove_call o owner call id r =
    remove_call_cases
      (λ x.
        owned_entry owner id (x.0)
        ≡ (if (o == owner) && (call == id) then none else owned_entry owner id r))
      o call r (λ c e p. ground (arith, e, p, get-remove call id r.calls))
      λ foreign. elim (Option-cases (get id r.calls)) [
        | inl e ↦ rw (owned_entry, e) (ground arith)
        | inr (c, e) ↦ rw (owned_entry, e) (ground (arith, foreign c, e))
      ]

owned-remove_calls :
    (o owner id : ℕ) (ids : List ℕ) (r : Registry)
    → owned_entry owner id ((remove_calls o ids r).0)
      ≡ (if (o == owner) && elem id ids then none else owned_entry owner id r)
unfolding elem
owned-remove_calls o owner id [] r = ground arith
owned-remove_calls o owner id (j ∷ ids) r = ground (
  arith,
  owned-remove_calls o owner id ids ((remove_call o j r).0),
  owned-remove_call o owner j id r,
)

pub elem-owned_ids :
    (owner id : ℕ) (r : Registry)
    → IsCounted r
    → elem id (owned_ids owner r) ≡ is_some (owned_entry owner id r)
unfolding owned_entry
elem-owned_ids owner id r v = elim (Option-cases (get id r.calls)) [
  | inl e ↦ ground (
    arith,
    owned_entry,
    e,
    elem-keys id (retain (λ _ c. c.owner == owner) r.calls),
    get-retain (λ _ c. c.owner == owner) id r.calls v.calls_distinct,
  )
  | inr (c, e) ↦ ground (
    arith,
    owned_entry,
    e,
    elem-keys id (retain (λ _ c. c.owner == owner) r.calls),
    get-retain (λ _ c. c.owner == owner) id r.calls v.calls_distinct,
  )
]

-- After the section of `release_owner`, an owner's calls are gone, and those of others are as before.
pub owned-unregister_owner :
    (o owner id : ℕ) (s : Calls)
    → IsConsistent s
    → owned_entry owner id ((unregister_owner o s).0).registry
      ≡ (if o == owner then none else owned_entry owner id s.registry)
unfolding unregister_owner
owned-unregister_owner o owner id s v = ground (
  arith,
  owned-remove_calls o owner id (owned_ids o s.registry) s.registry,
  elem-owned_ids o id s.registry v.counts,
)
