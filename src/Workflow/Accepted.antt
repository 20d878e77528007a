-- ===== src/Workflow/Accepted.antt =====
-- rust/core-bridge/src/workflow_protocol.rs: what a completion that passes validation may hold.
use ocaml_temporal.Workflow.Responses.{IsTwoPhase, responses, check_phases_iff}
use ocaml_temporal.Workflow.Validators.{identifier, validate_failure}
use ocaml_temporal.Workflow.Completions.{
  Modes, is_terminal, is_empty, patch_of, record_mode, check_commands, check_command, check_phases,
  check_task_failure, validate_completion, is_other_mode,
}
use ocaml_temporal.Workflow.Commands.{CompletionCommand, Completion, CompletionVersioningBehavior}
use ocaml_temporal.Workflow.Types.{Failure, terminal_not_last, versioned_failure, mixed_patch_modes}
use ocaml_temporal.Base.Map.{get, get-insert, insert}
use ocaml_temporal.Base.{
  ◌≡◌, Bytes, Option, none, some, List, [], ◌∷◌, Bool, true, ok, arith, refl, sym, subst, bind-ok,
  seq-ok, fail_if, not, ◌&&◌, is_some, each_some, bytes_key, bytes_eq_iff, false,
}

-- A terminal command is the last one.
abbrev pub EndsTerminal : List CompletionCommand → Type 0
EndsTerminal [] = Unit {0}
EndsTerminal (c ∷ cs) = (is_terminal c ≡ true → cs ≡ []) × EndsTerminal cs

-- The markers of a patch in the commands have one mode.
abbrev pub HasMode : Bytes → Bool → List CompletionCommand → Type 0
HasMode id mode [] = Unit {0}
HasMode id mode (c ∷ cs) =
    ((later : Bool) → patch_of c ≡ some (id, later) → later ≡ mode) × HasMode id mode cs

abbrev pub HasOneMode : List CompletionCommand → Type 0
HasOneMode [] = Unit {0}
HasOneMode (c ∷ cs) =
    ((id : Bytes) (mode : Bool) → patch_of c ≡ some (id, mode) → HasMode id mode cs) × HasOneMode cs

commands_ends :
    (cs : List CompletionCommand) (modes : Modes)
    → check_commands cs modes ≡ ok tt
    → EndsTerminal cs
unfolding check_commands
commands_ends [] modes h = tt
commands_ends (c ∷ cs) modes h =
    let (e, h1) = seq-ok (fail_if (is_terminal c && not (is_empty cs)) terminal_not_last) _ tt h in
    let (_, h2) = seq-ok (check_command c) _ tt h1 in
    let (later, _, g) = bind-ok (record_mode (patch_of c) modes) (check_commands cs) tt h2 in
    (only_last cs e, commands_ends cs later g)
  where
    only_last :
        (ds : List CompletionCommand)
        → fail_if (is_terminal c && not (is_empty ds)) terminal_not_last ≡ ok tt
        → is_terminal c ≡ true
        → ds ≡ []
    only_last [] e t = refl
    only_last (d ∷ ds) e t = ground (arith, e, t)

same_mode :
    (existing mode : Bool)
    → fail_if (is_other_mode (some existing) mode) mixed_patch_modes ≡ ok tt
    → mode ≡ existing
same_mode true true h = refl
same_mode true false h = ground (arith, h)
same_mode false true h = ground (arith, h)
same_mode false false h = refl

-- A mode that is recorded is that of every later marker.
recorded_mode :
    (cs : List CompletionCommand) (modes : Modes) (id : Bytes) (mode : Bool)
    → check_commands cs modes ≡ ok tt
    → get id modes ≡ some mode
    → HasMode id mode cs
unfolding check_commands
recorded_mode [] modes id mode h r = tt
recorded_mode (c ∷ cs) modes id mode h r =
    let (_, h1) = seq-ok (fail_if (is_terminal c && not (is_empty cs)) terminal_not_last) _ tt h in
    let (_, h2) = seq-ok (check_command c) _ tt h1 in
    let (later, e, g) = bind-ok (record_mode (patch_of c) modes) (check_commands cs) tt h2 in
    let (kept, same) = go (patch_of c) later e in (same, recorded_mode cs later id mode g kept)
  where
    go :
        (o : Option (Bytes × Bool)) (later : Modes)
        → record_mode o modes ≡ ok later
        → (get id later ≡ some mode) × ((m : Bool) → o ≡ some (id, m) → m ≡ mode)
    go none later e = (ground (arith, e, r), λ m f. ground (arith, f))
    go (some (key, m)) later e =
        let (allowed, same) =
          seq-ok (fail_if (is_other_mode (get key modes) m) mixed_patch_modes)
            (ok (insert key m modes)) later e in
        let agree : key ≡ id → m ≡ mode = λ k. same_mode mode m (
          subst (λ o. fail_if (is_other_mode o m) mixed_patch_modes ≡ ok tt)
            (subst (λ i. get i modes ≡ some mode) (sym k) r) allowed) in
        let is_later : insert key m modes ≡ later = ground (arith, same) in
        (
          subst (λ x. get id x ≡ some mode) is_later
              (ground (arith, get-insert key id m modes, bytes_eq_iff key id, agree, r)),
          λ n f. ground (arith, f, agree),
        )

commands_modes :
    (cs : List CompletionCommand) (modes : Modes) → check_commands cs modes ≡ ok tt → HasOneMode cs
unfolding check_commands
commands_modes [] modes h = tt
commands_modes (c ∷ cs) modes h =
    let (_, h1) = seq-ok (fail_if (is_terminal c && not (is_empty cs)) terminal_not_last) _ tt h in
    let (_, h2) = seq-ok (check_command c) _ tt h1 in
    let (later, e, g) = bind-ok (record_mode (patch_of c) modes) (check_commands cs) tt h2 in
    (
      λ id mode f. recorded_mode cs later id mode g (recorded id mode later f e),
      commands_modes cs later g,
    )
  where
    recorded :
        (id : Bytes) (mode : Bool) (later : Modes)
        → patch_of c ≡ some (id, mode)
        → record_mode (patch_of c) modes ≡ ok later
        → get id later ≡ some mode
    recorded id mode later f e =
        let (_, same) =
          seq-ok (fail_if (is_other_mode (get id modes) mode) mixed_patch_modes)
            (ok (insert id mode modes)) later (subst (λ o. record_mode o modes ≡ ok later) f e) in
        let is_later : insert id mode modes ≡ later = ground (arith, same) in
        subst (λ x. get id x ≡ some mode) is_later
          (ground (arith, get-insert id id mode modes, bytes_eq_iff id id))

-- What Core may rely on in a completion.
pub record IsCompletion (v : Completion) : Type 0 where
  fails_alone :
      (f : Failure)
      → v.task_failure ≡ some f
      → (v.commands ≡ []) × (v.versioning_behavior ≡ none) × (validate_failure f ≡ ok tt)
  ends_terminal : EndsTerminal v.commands
  has_one_mode : HasOneMode v.commands
  are_two_phase : (id : Bytes) → IsTwoPhase (responses id v.commands)

task_failure_lem :
    (cs : List CompletionCommand) (o : Option Failure) (b : Option CompletionVersioningBehavior)
    → fail_if (is_some o && is_some b) versioned_failure ≡ ok tt
    → each_some (check_task_failure cs) o ≡ ok tt
    → (f : Failure) → o ≡ some f
    → (cs ≡ []) × (b ≡ none) × (validate_failure f ≡ ok tt)
task_failure_lem cs none b h g f e = ground (arith, e)
task_failure_lem cs (some x) (some y) h g f e = ground (arith, h)
task_failure_lem (c ∷ cs) (some x) none h g f e = ground (arith, g)
task_failure_lem [] (some x) none h g f e = (refl, refl, ground (arith, g, e))

-- A completion that passes `validate_completion`: with a task failure, which is valid, it has no
-- command and no versioning behavior; a terminal command is the last one; the markers of one patch
-- agree on their mode; and each update has no response, or one, or an acceptance and then one that
-- is none.
pub validate_completion-IsCompletion :
    (v : Completion) → validate_completion v ≡ ok tt → IsCompletion v
unfolding validate_completion
validate_completion-IsCompletion v h =
    let (_, h1) = seq-ok (identifier v.run_id) _ tt h in
    let (versions, h2) =
      seq-ok (fail_if (is_some v.task_failure && is_some v.versioning_behavior) versioned_failure) _
        tt h1 in
    let (failures, h3) =
      seq-ok (each_some (check_task_failure v.commands) v.task_failure) _ tt h2 in
    let (commands, phases) =
      seq-ok (check_commands v.commands []) (check_phases v.commands []) tt h3 in
    record {
      fails_alone =
          task_failure_lem v.commands v.task_failure v.versioning_behavior versions failures;
      ends_terminal = commands_ends v.commands [] commands;
      has_one_mode = commands_modes v.commands [] commands;
      are_two_phase = (check_phases_iff v.commands).0 phases;
    }
