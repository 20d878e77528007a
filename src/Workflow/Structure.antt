-- ===== src/Workflow/Structure.antt =====
-- rust/core-bridge/src/workflow_protocol.rs: the structure of an activation that passes validation.
use ocaml_temporal.Workflow.Validators.{identifier}
use ocaml_temporal.Base.{
  ◌≡◌, false, List, [], ◌∷◌, ok, fail_if, bind-ok, Bytes, bytes_key, nat_eq, arith, subst, Option,
  none, some, bytes_eq, bytes_eq_iff, seq-ok, not, ◌>>◌, ◌>>=◌, ℕ, length, true, is_some, each_some,
  ◌⊎◌,
}
use ocaml_temporal.Base.Map.{Set, contains, add}
use ocaml_temporal.Workflow.Types.{
  Update, ActivationJob, duplicate_query_id, bad_update_meta, duplicate_update_id, Activation,
  Timestamp,
}
use ocaml_temporal.Workflow.Activations.{
  check_query_ids, query_id, update_of, check_update_rest, check_jobs, check_job, check_plain_job,
  check_update, Seen, check_update_or, count_jobs, is_eviction, is_initialize, is_query,
  starts_with_initialize, check_eviction_count, check_initialize_count, check_query_count,
  check_activation_time, check_metadata, validate_activation,
}

-- The identifiers of the queries, and the updates.
unfoldable pub query_ids : List ActivationJob → List Bytes
query_ids [] = []
query_ids (j ∷ js) =
    let rest = query_ids js in elim (query_id j) [ none ↦ rest | some id ↦ id ∷ rest ]

abbrev pub with_update : Option Update → List Update → List Update
with_update none us = us
with_update (some u) us = u ∷ us

unfoldable pub updates : List ActivationJob → List Update
updates [] = []
updates (j ∷ js) = with_update (update_of j) (updates js)

abbrev pub update_ids : List Update → List Bytes
update_ids [] = []
update_ids (u ∷ us) = u.id ∷ update_ids us

abbrev pub protocol_ids : List Update → List Bytes
protocol_ids [] = []
protocol_ids (u ∷ us) = u.protocol_instance_id ∷ protocol_ids us

-- Every name stands once, and none is in the set.
abbrev pub AreFresh : List Bytes → Set Bytes → Type 0
AreFresh [] seen = Unit {0}
AreFresh (k ∷ ks) seen = (contains k seen ≡ false) × AreFresh ks (add k seen)

check_query_ids-AreFresh :
    (js : List ActivationJob) (seen : Set Bytes)
    → check_query_ids js seen ≡ ok tt
    → AreFresh (query_ids js) seen
unfolding check_query_ids query_ids
check_query_ids-AreFresh [] seen h = tt
check_query_ids-AreFresh (j ∷ js) seen h =
    go (query_id j) (λ later. check_query_ids-AreFresh js later) h
  where
    go :
        (o : Option Bytes)
        → ((later : Set Bytes) → check_query_ids js later ≡ ok tt → AreFresh (query_ids js) later)
        → (elim o [
          | none ↦ check_query_ids js seen
          | some id ↦
              fail_if (contains id seen) duplicate_query_id >> check_query_ids js (add id seen)
        ])
          ≡ ok tt
        → AreFresh (elim o [ none ↦ query_ids js | some id ↦ id ∷ query_ids js ]) seen
    go none rest h = rest seen h
    go (some id) rest h =
        let (e, g) = seq-ok (fail_if (contains id seen) duplicate_query_id) _ tt h in
        (ground (arith, e), rest (add id seen) g)

-- What a valid update leaves in the sets.
check_update-ok :
    (u : Update) (seen seen' : Seen)
    → check_update u seen ≡ ok seen'
    → (seen' ≡ (add u.id (seen.0), add u.protocol_instance_id (seen.1)))
      × (contains u.id (seen.0) ≡ false)
      × (contains u.protocol_instance_id (seen.1) ≡ false)
      × (u.meta.update_id ≡ u.id)
unfolding check_update
check_update-ok u (ids, protocols) seen' h =
    let (_, h1) =
      seq-ok (identifier u.id >> (identifier u.protocol_instance_id >> identifier u.name)) _ seen'
        h in
    let (e, h2) = seq-ok (fail_if (contains u.id ids) duplicate_update_id) _ seen' h1 in
    let (f, h3) =
      seq-ok (fail_if (contains u.protocol_instance_id protocols) duplicate_update_id) _ seen' h2 in
    let (g, h4) =
      seq-ok (check_update_rest u) (ok (add u.id ids, add u.protocol_instance_id protocols)) seen'
        h3 in
    let (k, _) = seq-ok (fail_if (not (bytes_eq u.meta.update_id u.id)) bad_update_meta) _ tt g in
    (
      ground (arith, h4),
      ground (arith, e),
      ground (arith, f),
      ground (arith, k, bytes_eq_iff u.meta.update_id u.id),
    )

-- Each update names itself in its metadata.
abbrev pub AreNamed : List Update → Type 0
AreNamed [] = Unit {0}
AreNamed (u ∷ us) = (u.meta.update_id ≡ u.id) × AreNamed us

check_jobs-AreFresh :
    (js : List ActivationJob) (seen : Seen)
    → check_jobs js seen ≡ ok tt
    → AreFresh (update_ids (updates js)) (seen.0)
      × AreFresh (protocol_ids (updates js)) (seen.1)
      × AreNamed (updates js)
unfolding check_jobs check_job updates
check_jobs-AreFresh [] seen h = (tt, tt, tt)
check_jobs-AreFresh (j ∷ js) seen h = go (update_of j) (λ later. check_jobs-AreFresh js later) h
  where
    go :
        (o : Option Update)
        → ((later : Seen)
            → check_jobs js later ≡ ok tt
            → AreFresh (update_ids (updates js)) (later.0)
              × AreFresh (protocol_ids (updates js)) (later.1)
              × AreNamed (updates js))
        → (check_update_or o j seen >>= check_jobs js) ≡ ok tt
        → AreFresh (update_ids (with_update o (updates js))) (seen.0)
          × AreFresh (protocol_ids (with_update o (updates js))) (seen.1)
          × AreNamed (with_update o (updates js))
    go none rest h =
        let (seen', e, g) = bind-ok (check_plain_job j >> ok seen) (check_jobs js) tt h in
        rest seen (
          subst (λ x. check_jobs js x ≡ ok tt)
            (ground (arith, seq-ok (check_plain_job j) (ok seen) seen' e)) g)
    go (some u) rest h =
        let (seen', e, g) = bind-ok (check_update u seen) (check_jobs js) tt h in
        let (same, p, q, r) = check_update-ok u seen seen' e in
        let (a, b, c) =
          rest (add u.id (seen.0), add u.protocol_instance_id (seen.1))
            (subst (λ x. check_jobs js x ≡ ok tt) same g) in
        ((p, a), (q, b), (r, c))

-- An eviction is alone in its activation.
abbrev pub EvictsAlone : List ActivationJob → Type 0
EvictsAlone js = let n : ℕ = count_jobs is_eviction js in (n ≡ 0) ⊎ ((n ≡ 1) × (length js ≡ 1))

abbrev pub InitializesFirst : List ActivationJob → Type 0
InitializesFirst js =
    let n : ℕ = count_jobs is_initialize js in
    (n ≡ 0) ⊎ ((n ≡ 1) × (starts_with_initialize js ≡ true))

abbrev pub QueriesAlone : List ActivationJob → Type 0
QueriesAlone js = let n : ℕ = count_jobs is_query js in (n ≡ 0) ⊎ (n ≡ length js)

-- What the worker may rely on in an activation.
pub record IsActivation (a : Activation) : Type 0 where
  evicts_alone : EvictsAlone a.jobs
  is_timed : is_some a.timestamp ≡ false → count_jobs is_eviction a.jobs ≡ 1
  initializes_first : InitializesFirst a.jobs
  queries_alone : QueriesAlone a.jobs
  queries_are_fresh : AreFresh (query_ids a.jobs) []
  updates_are_fresh : AreFresh (update_ids (updates a.jobs)) []
  protocols_are_fresh : AreFresh (protocol_ids (updates a.jobs)) []
  are_named : AreNamed (updates a.jobs)

eviction_count_lem : (js : List ActivationJob) → check_eviction_count js ≡ ok tt → EvictsAlone js
eviction_count_lem js h = ground (arith, h)

initialize_count_lem :
    (js : List ActivationJob) → check_initialize_count js ≡ ok tt → InitializesFirst js
initialize_count_lem js h = ground (arith, h)

query_count_lem : (js : List ActivationJob) → check_query_count js ≡ ok tt → QueriesAlone js
query_count_lem js h = ground (arith, h)

activation_time_lem :
    (t : Option Timestamp) (n : ℕ) → check_activation_time t n ≡ ok tt → is_some t ≡ false → n ≡ 1
activation_time_lem (some t) n h e = ground (arith, e)
activation_time_lem none n h e = ground (arith, h)

-- An activation that passes `validate_activation`: an eviction is its only job, and only with one may
-- its time be missing; it initializes the workflow at most once, by its first job; its jobs are all
-- queries, of distinct identifiers, or none is; its updates have distinct identifiers and distinct
-- protocol identifiers, and each has its identifier in its metadata too.
pub validate_activation-IsActivation :
    (a : Activation) → validate_activation a ≡ ok tt → IsActivation a
unfolding validate_activation
validate_activation-IsActivation a h =
    let (_, h1) = seq-ok (identifier a.run_id) _ tt h in
    let (evictions, h2) = seq-ok (check_eviction_count a.jobs) _ tt h1 in
    let (time, h3) =
      seq-ok (check_activation_time a.timestamp (count_jobs is_eviction a.jobs)) _ tt h2 in
    let (initializes, h4) = seq-ok (check_initialize_count a.jobs) _ tt h3 in
    let (queries, h5) = seq-ok (check_query_count a.jobs) _ tt h4 in
    let (ids, h6) = seq-ok (check_query_ids a.jobs []) _ tt h5 in
    let (jobs, _) =
      seq-ok (check_jobs a.jobs ([], [])) (each_some check_metadata a.metadata) tt h6 in
    let (fresh, protocols, named) = check_jobs-AreFresh a.jobs ([], []) jobs in
    record {
      evicts_alone = eviction_count_lem a.jobs evictions;
      is_timed = activation_time_lem a.timestamp _ time;
      initializes_first = initialize_count_lem a.jobs initializes;
      queries_alone = query_count_lem a.jobs queries;
      queries_are_fresh = check_query_ids-AreFresh a.jobs [] ids;
      updates_are_fresh = fresh;
      protocols_are_fresh = protocols;
      are_named = named;
    }
