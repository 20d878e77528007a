-- ===== src/Ledger/History.antt =====
-- Sequences of calls of `TaskLedger`.
use ocaml_temporal.Base.{List, [], ◌∷◌}
use ocaml_temporal.Ledger.State.{TaskLedger}
use ocaml_temporal.Ledger.Calls.{Call, apply}
use ocaml_temporal.Ledger.Invariant.{IsValid}
use ocaml_temporal.Ledger.Preserved.{apply-IsValid}

unfoldable pub run : List Call → TaskLedger → TaskLedger
run [] l = l
run (c ∷ cs) l = run cs (apply c l)

pub run-IsValid : (cs : List Call) (l : TaskLedger) → IsValid l → IsValid (run cs l)
unfolding run
run-IsValid [] l v = v
run-IsValid (c ∷ cs) l v = run-IsValid cs (apply c l) (apply-IsValid c l v)
