-- ===== src/Abi/Configured.antt =====
-- rust/core-bridge/src/abi.rs: what each check of a worker document leaves.
use ocaml_temporal.Abi.WorkerInput.{
  ValidatedTuning, WorkerTuningInput, PollerBehavior, simple_maximum, autoscaling,
  PollerAutoscalingInput,
}
use ocaml_temporal.Abi.Config.{
  refuse_if, max_transport_string_bytes, validate_identifier, max_worker_count, validate_count,
  max_worker_tuning_duration_ms, tuning_duration, is_positive_normal,
  min_worker_activities_per_second, tuning_rate, worker_rate, check_worker_rate,
  configuration_failure, validated, default_sticky_ms, default_max_heartbeat_ms,
  default_heartbeat_ms, exceeds, workflow_task_poller_behavior,
}
use ocaml_temporal.Base.Map.{elem}
use ocaml_temporal.Abi.Status.{Failure, status_configuration}
use ocaml_temporal.Base.{
  ◌≡◌, ℕ, Bool, Bytes, Result, ok, err, length, ◌==◌, ltb, true, false, Option, none, some, ◌>>=◌,
  ◌>>◌, ◌≤◌, refl, nat_eq, arith, if◌then◌else◌, not, leb, ◌&&◌, ◌||◌, is_some,
}

-- A result that satisfies `P`, or a failure of the configuration.
abbrev pub Yields : {A : Type 0} → (A → Type 0) → Result Failure A → Type 0
Yields P (ok a) = P a
Yields P (err f) = f.status ≡ status_configuration

pub Yields-bind :
    {A B : Type 0} (P : A → Type 0) (Q : B → Type 0) (m : Result Failure A)
    (f : A → Result Failure B)
    → Yields P m
    → ((a : A) → P a → Yields Q (f a))
    → Yields Q (m >>= f)
Yields-bind P Q (ok a) f h k = k a h
Yields-bind P Q (err e) f h k = h

pub Yields-map :
    {A : Type 0} (P Q : A → Type 0) (m : Result Failure A)
    → Yields P m
    → ((a : A) → P a → Yields Q (ok a))
    → Yields Q m
Yields-map P Q (ok a) h k = k a h
Yields-map P Q (err e) h k = h

pub Yields-seq :
    {B : Type 0} (R : Type 0) (Q : B → Type 0) (m : Result Failure (Unit {0}))
    (r : Result Failure B)
    → Yields (λ _. R) m
    → (R → Yields Q r)
    → Yields Q (m >> r)
Yields-seq R Q (ok tt) r h k = k h
Yields-seq R Q (err e) r h k = h

pub refuse_if_lem : (P : Type 0) (b : Bool) → (b ≡ false → P) → Yields (λ _. P) (refuse_if b)
refuse_if_lem P false h = h refl
refuse_if_lem P true h = refl

pub Yields-refuse :
    {B : Type 0} (Q : B → Type 0) (b : Bool) (r : Result Failure B)
    → (b ≡ false → Yields Q r)
    → Yields Q (refuse_if b >> r)
Yields-refuse Q false r h = h refl
Yields-refuse Q true r h = refl

pub Yields-if :
    {A : Type 0} (P : A → Type 0) (b : Bool) (a : A)
    → (b ≡ true → P a)
    → Yields P (if b then ok a else err configuration_failure)
Yields-if P true a h = h refl
Yields-if P false a h = refl

Yields-unless :
    {A : Type 0} (P : A → Type 0) (b : Bool) (a : A)
    → (b ≡ false → P a)
    → Yields P (if b then err configuration_failure else ok a)
Yields-unless P true a h = refl
Yields-unless P false a h = h refl

abbrev pub IsName : Bytes → Type 0
IsName v = (1 ≤ length v) × (length v ≤ max_transport_string_bytes) × (elem 0 v ≡ false)

pub validate_identifier_lem : (v : Bytes) → Yields (λ _. IsName v) (validate_identifier v)
unfolding validate_identifier
validate_identifier_lem v =
    Yields-refuse (λ _. IsName v) (length v == 0) _
      λ a.
        Yields-refuse (λ _. IsName v) (ltb max_transport_string_bytes (length v)) _
          λ b. refuse_if_lem (IsName v) (elem 0 v) λ c. (ground (arith, a), ground (arith, b), c)

pub validate_count_lem :
    (n : ℕ) (allow_zero : Bool)
    → Yields
        (λ _. (n ≤ max_worker_count) × (allow_zero ≡ false → 1 ≤ n))
        (validate_count n allow_zero)
unfolding validate_count
validate_count_lem n allow_zero =
    refuse_if_lem _ ((not allow_zero && n == 0) || ltb max_worker_count n)
      λ h. (ground (arith, h), λ e. ground (arith, h, e))

abbrev pub IsInDay : ℕ → Type 0
IsInDay ms = (1 ≤ ms) × (ms ≤ max_worker_tuning_duration_ms)

tuning_duration_lem :
    (v : Option ℕ) (default_ms : ℕ)
    → IsInDay default_ms
    → Yields IsInDay (tuning_duration v default_ms)
unfolding tuning_duration
tuning_duration_lem none d h = h
tuning_duration_lem (some ms) d h =
    Yields-if IsInDay (leb 1 ms && leb ms max_worker_tuning_duration_ms) ms
      λ e. (ground (arith, e), ground (arith, e))

abbrev pub IsRate : Option ℕ → Type 0
IsRate none = Unit {0}
IsRate (some rate) = is_positive_normal rate ≡ true

abbrev pub IsWorkerRate : Option ℕ → Type 0
IsWorkerRate none = Unit {0}
IsWorkerRate (some rate) =
    (is_positive_normal rate ≡ true) × (min_worker_activities_per_second ≤ rate)

tuning_rate_lem : (v : Option ℕ) → Yields IsRate (tuning_rate v)
unfolding tuning_rate
tuning_rate_lem none = tt
tuning_rate_lem (some rate) = Yields-if IsRate (is_positive_normal rate) (some rate) λ e. e

check_worker_rate_lem : (v : Option ℕ) → IsRate v → Yields IsWorkerRate (check_worker_rate v)
check_worker_rate_lem none h = tt
check_worker_rate_lem (some rate) h =
    Yields-unless IsWorkerRate (ltb rate min_worker_activities_per_second) (some rate)
      λ e. (h, ground (arith, e))

worker_rate_lem : (v : Option ℕ) → Yields IsWorkerRate (worker_rate v)
unfolding worker_rate
worker_rate_lem v =
    Yields-bind IsRate IsWorkerRate (tuning_rate v) check_worker_rate (tuning_rate_lem v)
      check_worker_rate_lem

-- Durations of a day at most, and rates that Core can invert.
pub record IsTuning (t : ValidatedTuning) : Type 0 where
  sticky_in_day : IsInDay t.sticky_queue_schedule_to_start_timeout
  max_heartbeat_in_day : IsInDay t.max_heartbeat_throttle_interval
  default_heartbeat_in_day : IsInDay t.default_heartbeat_throttle_interval
  worker_rate_is_bounded : IsWorkerRate t.max_worker_activities_per_second
  queue_rate_is_normal : IsRate t.max_task_queue_activities_per_second

pub validated_lem : (t : WorkerTuningInput) → Yields IsTuning (validated t)
unfolding validated
validated_lem t =
    Yields-bind IsInDay IsTuning
      (tuning_duration t.sticky_queue_schedule_to_start_timeout_ms default_sticky_ms) _
      (tuning_duration_lem _ default_sticky_ms (omega arith, omega arith))
      λ _ a.
        Yields-bind IsInDay IsTuning
          (tuning_duration t.max_heartbeat_throttle_interval_ms default_max_heartbeat_ms) _
          (tuning_duration_lem _ default_max_heartbeat_ms (omega arith, omega arith))
          λ _ b.
            Yields-bind IsInDay IsTuning
              (tuning_duration t.default_heartbeat_throttle_interval_ms default_heartbeat_ms) _
              (tuning_duration_lem _ default_heartbeat_ms (omega arith, omega arith))
              λ _ c.
                Yields-refuse IsTuning
                  (exceeds t.default_heartbeat_throttle_interval_ms
                    t.max_heartbeat_throttle_interval_ms)
                  _
                  λ _.
                    Yields-bind IsWorkerRate IsTuning
                      (worker_rate t.max_worker_activities_per_second) _
                      (worker_rate_lem t.max_worker_activities_per_second)
                      λ _ d.
                        Yields-bind IsRate IsTuning
                          (tuning_rate t.max_task_queue_activities_per_second) _
                          (tuning_rate_lem t.max_task_queue_activities_per_second)
                          λ _ e. record {
                            sticky_in_day = a;
                            max_heartbeat_in_day = b;
                            default_heartbeat_in_day = c;
                            worker_rate_is_bounded = d;
                            queue_rate_is_normal = e;
                          }

-- The poller of a worker whose document allows `polls` at once.
abbrev pub IsScaling : ℕ → PollerAutoscalingInput → Type 0
IsScaling polls a =
    (1 ≤ a.minimum) × (a.minimum ≤ a.initial) × (a.initial ≤ a.maximum) × (a.maximum ≡ polls)

pub poller_lem :
    (Q : PollerBehavior → Type 0) (o : Option PollerAutoscalingInput) (polls : ℕ)
    → (is_some o ≡ false → Q (simple_maximum polls))
    → ((a : PollerAutoscalingInput) → IsScaling polls a → Q (autoscaling a))
    → Yields Q (workflow_task_poller_behavior o polls)
unfolding workflow_task_poller_behavior
poller_lem Q none polls simple scaling = simple refl
poller_lem Q (some a) polls simple scaling =
    Yields-seq _ Q (validate_count a.minimum false) _ (validate_count_lem a.minimum false)
      λ (_, positive).
        Yields-seq _ Q (validate_count a.maximum false) _ (validate_count_lem a.maximum false) λ _.
          Yields-refuse Q (ltb a.maximum a.minimum) _ λ _.
            Yields-refuse Q (ltb a.initial a.minimum || ltb a.maximum a.initial) _ λ h.
              Yields-refuse Q (not (a.maximum == polls)) (ok (autoscaling a)) λ e.
                scaling a (positive refl, ground (arith, h), ground (arith, h), ground (arith, e))
