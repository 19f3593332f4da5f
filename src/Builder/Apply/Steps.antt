-- ===== src/Builder/Apply/Steps.antt =====
-- The steps that the calls of a plan add, and the results of single steps.
use las.Control.Executor.{dry_step, run_command, perform, real_step, error_of, ending_error}
use las.Control.{
  Command, Plan, Step, add_command, add_write, add_warning, step_command, step_write, step_warning,
}
use las.Prelude.{
  eq_iff, String, Bool, true, false, Bool-cases, none, some, [], ◌∷◌, ◌++◌, map, contains, str_eq,
  ◌≡◌, refl, sym, ap, ◌∙◌, inl, inr,
}
use las.Os.{Os, NeverFails}
use las.Builder.Sound.{
  programs, IsProgram, IsSound, sound_command, sound_script, sound_write, sound_warning,
}
use las.Control.Files.Success.{write_file-Succeeds}
use mathlib.Core.List.{append_assoc, append-nil}
use las.Fmt.{sprintf}
use las.Builder.Trace.{Call, Calls, command, write, warning, apply_call, apply_calls}

-- The step that a call adds.
unfoldable pub step_of : Call → Step
step_of (command description program args) = record {
  kind = step_command;
  description = description;
  command = some (record { program = program; args = args });
  path = "";
  mode = "";
  content = "";
}
step_of (write description path mode content) = record {
  kind = step_write;
  description = description;
  command = none;
  path = path;
  mode = mode;
  content = content;
}
step_of (warning format args) = record {
  kind = step_warning;
  description = sprintf format args;
  command = none;
  path = "";
  mode = "";
  content = "";
}

apply_call-steps :
    (plan : Plan) (call : Call) → (apply_call plan call).steps ≡ plan.steps ++ step_of call ∷ []
unfolding apply_call step_of add_command add_write add_warning
apply_call-steps plan (command d p args) = refl
apply_call-steps plan (write d path mode content) = refl
apply_call-steps plan (warning format args) = refl

pub apply_calls-steps :
    (plan : Plan) (calls : Calls) → (apply_calls plan calls).steps ≡ plan.steps ++ map step_of calls
unfolding apply_calls
apply_calls-steps plan [] = sym (append-nil plan.steps)
apply_calls-steps plan (call ∷ calls) =
    apply_calls-steps (apply_call plan call) calls
    ∙ ap (λ steps. steps ++ map step_of calls) (apply_call-steps plan call)
    ∙ append_assoc plan.steps (step_of call ∷ []) (map step_of calls)

pub dry_step-IsSound : (call : Call) → (dry_step (step_of call)).1 ≡ none
unfolding dry_step step_of
dry_step-IsSound (command d p args) = refl
dry_step-IsSound (write d path mode content) = refl
dry_step-IsSound (warning format args) = refl

pub dry_step-step : (call : Call) → (dry_step (step_of call)).0.step ≡ step_of call
unfolding dry_step step_of
dry_step-step (command d p args) = refl
dry_step-step (write d path mode content) = refl
dry_step-step (warning format args) = refl

pub real_step-step : (os : Os) (step : Step) (s : os.State) → (real_step os step s).1.0.step ≡ step
unfolding real_step
real_step-step os step s = elim (Bool-cases (str_eq step.kind step_warning)) [
  | inl e ↦ rw e
  | inr e ↦ rw e
]

clash : {b : Bool} → b ≡ true → b ≡ false → ⊥
clash h k = cc

programs-not_empty : contains programs "" ≡ false
unfolding contains
programs-not_empty = refl

pub IsProgram-ne : (program : String) → IsProgram program → str_eq program "" ≡ false
IsProgram-ne program h = elim (Bool-cases (str_eq program "")) [
  | inl e ↦ absurd (clash h (ap (contains programs) ((eq_iff program "").0 e) ∙ programs-not_empty))
  | inr e ↦ e
]

module _ (os : Os) (ok_os : NeverFails os) where
  run_command-none :
      (c : Command) (s : os.State) → str_eq c.program "" ≡ false → (run_command os c s).2 ≡ none
  unfolding run_command ending_error
  run_command-none c s h = rw (h, ok_os.run-finished c.program c.args s)

  pub real_step-none :
      (call : Call) (s : os.State) → IsSound call → (real_step os (step_of call) s).1.1 ≡ none
  unfolding real_step step_of perform
  real_step-none (command d p args) s (sound_command h) =
      run_command-none (record { program = p; args = args }) s (IsProgram-ne p h)
  real_step-none (command d p args) s (sound_script _) =
      run_command-none (record { program = p; args = args }) s refl
  real_step-none (write d path mode content) s (sound_write h) =
      ap error_of (write_file-Succeeds os ok_os path mode content s h)
  real_step-none (warning format args) s sound_warning = refl
