-- ===== src/Control/Executor.antt =====
-- internal/control/executor.go: `Execute` and `runCommand`.
pub mod Laws
pub mod Writes
use las.Prelude.{
  ◌≡◌, refl, String, Bool, true, false, Option, none, some, List, [], ◌∷◌, byte_len, codes, pos,
  str_eq, if◌then◌else◌,
}
use las.Errors.{str, int}
use las.Fmt.{sprintf}
use las.Os.{Os, Ending, finished, cancelled, exited, Outcome, done, failed, after}
use las.Control.{
  Command, Step, StepResult, Plan, command_string, step_command, step_write, step_warning,
}
use las.Control.Files.{write_file}

-- A result before the step is carried out, and one with an output and an error.
abbrev pub result_of : Bool → Step → String → String → StepResult
result_of dry step output error = record {
  step = step;
  output = output;
  error = error;
  dry_run = dry;
  interrupted = false;
}

abbrev pub missing_command : Step → String
missing_command step = sprintf "missing command for %s" (str step.description ∷ [])

-- What a step gives: its result, and the error that `Execute` returns if there is one.
abbrev pub Done : Type 0
Done = StepResult × Option String

-- The body of the loop of a dry run.
dry_command : Step → Option Command → Done
unfolding command_string
dry_command step none = (result_of true step "" "missing command", some (missing_command step))
dry_command step (some c) = (result_of true step (command_string c) "", none)

abbrev pub written : Step → String
written step =
    sprintf "write %s mode %s (%d bytes)"
      (str step.path ∷ str step.mode ∷ int (pos (byte_len (codes step.content))) ∷ [])

unfoldable pub dry_step : Step → Done
unfolding dry_command
dry_step step =
    if str_eq step.kind step_warning
    then (result_of true step "" "", none)
    else if str_eq step.kind step_command
    then dry_command step step.command
    else if str_eq step.kind step_write
    then (result_of true step (written step) "", none)
    else (result_of true step "" "", none)

-- `runCommand`: the output, and the error if there is one.
unfoldable pub ending_error : Command → String → Ending → Option String
unfolding command_string
ending_error c output finished = none
ending_error c output (cancelled e) = some e
ending_error c output (exited e) =
    some (sprintf "%s: %w: %s" (str (command_string c) ∷ str e ∷ str output ∷ []))

abbrev pub error_text : Option String → String
error_text none = ""
error_text (some e) = e

abbrev pub error_of : Outcome (Unit {0}) → Option String
error_of (done _) = none
error_of (failed e) = some e

-- The loop of `Execute` behind a step: an error ends it, with the step's result as the last one.
unfoldable pub go_on :
    {S : Type 0}
    → S × Done
    → (S → S × List StepResult × Option String)
    → S × List StepResult × Option String
go_on (s, (result, some e)) rest = (s, result ∷ [], some e)
go_on (s, (result, none)) rest = let (t, results, e) = rest s in (t, result ∷ results, e)

-- What holds on both ways behind a step.
pub go_on_rule {ℓ} :
    {S : Type 0} (P : S × List StepResult × Option String → Type ℓ) (m : S × Done)
    (rest : S → S × List StepResult × Option String)
    → ((e : String) → m.1.1 ≡ some e → P (m.0, m.1.0 ∷ [], some e))
    → (m.1.1 ≡ none → P ((rest m.0).0, m.1.0 ∷ (rest m.0).1, (rest m.0).2))
    → P (go_on m rest)
unfolding go_on
go_on_rule P (s, (result, some e)) rest f g = f e refl
go_on_rule P (s, (result, none)) rest f g = g refl

module _ (os : Os) where
  unfoldable pub run_command : Command → os.State → os.State × String × Option String
  unfolding ending_error
  run_command c s =
      let (t, output, ending) = os.run c.program c.args s in
      if str_eq c.program ""
      then (s, "", some "empty command program")
      else (t, output, ending_error c output ending)

  run_step : Step → Option Command → os.State → os.State × String × Option String
  unfolding run_command
  run_step step none s = (s, "", some (missing_command step))
  run_step step (some c) s = run_command c s

  -- The `switch` on the kind.
  unfoldable pub perform : Step → os.State → os.State × String × Option String
  unfolding run_step
  perform step s =
      let (t, r) = write_file os step.path step.mode step.content s in
      if str_eq step.kind step_command
      then run_step step step.command s
      else if str_eq step.kind step_write
      then (t, "", error_of r)
      else (s, "", some (sprintf "unsupported step kind %q" (str step.kind ∷ [])))

  unfoldable pub real_step : Step → os.State → os.State × Done
  real_step step s =
      let (t, output, error) = perform step s in
      if str_eq step.kind step_warning
      then (s, (result_of false step "" "", none))
      else (t, (result_of false step output (error_text error), error))

  unfoldable pub one_step : Bool → Step → os.State → os.State × Done
  one_step true step s = (s, dry_step step)
  one_step false step s = real_step step s

  unfoldable pub execute_steps :
      Bool → List Step → os.State → os.State × List StepResult × Option String
  execute_steps dry [] s = (s, [], none)
  execute_steps dry (step ∷ steps) s = go_on (one_step dry step s) (λ t. execute_steps dry steps t)

  -- `Executor{DryRun: dry}.Execute(ctx, plan)`
  unfoldable pub execute : Bool → Plan → os.State → os.State × List StepResult × Option String
  execute dry plan = execute_steps dry plan.steps
