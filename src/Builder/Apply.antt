-- ===== src/Builder/Apply.antt =====
-- What a plan of the builder does when it is carried out.
pub mod Steps
pub mod Machine
use las.Builder.{validate, plan_calls, build_plan}
use las.Control.Executor.{
  execute, go_on, Done, dry_step, run_command, perform, real_step, one_step, execute_steps,
  error_of, ending_error,
}
use las.Errors.{Error, ok, err, ◌>>◌, Check}
use las.Control.Files.{write_file}
use las.Control.{
  Command, StepResult, Plan, Step, add_command, add_write, add_warning, step_command, step_write,
  step_warning,
}
use las.Prelude.{
  eq_iff, Option, String, Bool, true, false, Bool-cases, none, some, List, [], ◌∷◌, ◌++◌, map,
  contains, str_eq, ◌≡◌, refl, sym, ap, ◌∙◌, inl, inr,
}
use las.Os.{Os, NeverFails}
use las.Builder.Sound.{
  programs, IsProgram, IsSound, AreSound, sound_command, sound_script, sound_write, sound_warning,
}
use las.Control.Files.Success.{write_file-Succeeds}
use las.Config.{Config}
use mathlib.Core.Path.{subst}
use las.Builder.Sound.Parts.{plan_calls-AreSound}
use std.Path.{ap₂}
use mathlib.Core.List.{append_assoc, append-nil}
use las.Fmt.{sprintf}
use las.Builder.Trace.{Call, Calls, command, write, warning, apply_call, apply_calls}
use las.Builder.Apply.Steps.{
  step_of, apply_calls-steps, real_step-step, dry_step-step, dry_step-IsSound, real_step-none,
  IsProgram-ne,
}
use las.Builder.Apply.Machine.{
  Completes, machine_after, dry_steps-Completes, real_steps-Completes, real_steps-state,
}

ok-injective : {A : Type 0} {x y : A} → ok x ≡ ok y → x ≡ y
ok-injective h = cc

ok-clash : {A : Type 0} {e : Error} {x : A} → err e ≡ ok x → ⊥
ok-clash h = cc

seq-ok : {A : Type 0} (c : Check) {x y : A} → c >> ok x ≡ ok y → x ≡ y
unfolding ◌>>◌
seq-ok (ok _) h = ok-injective h
seq-ok (err e) h = absurd (ok-clash h)

module _ (order : List String → List String) (os : Os) (c : Config) {plan : Plan} (s : os.State)
    (built_plan : build_plan order c ≡ ok plan) where
  build_plan-steps : plan.steps ≡ map step_of (plan_calls order c)
  unfolding build_plan
  build_plan-steps =
      ap Plan.steps (sym (seq-ok (validate c) built_plan))
      ∙ apply_calls-steps (record { steps = [] }) (plan_calls order c)

  -- A dry run of a plan that was built reports every step, in order, and no error.
  pub build_plan-dry : Completes plan.steps (execute os true plan s)
  unfolding execute
  build_plan-dry =
      subst (λ steps. Completes steps (execute_steps os true steps s)) (sym build_plan-steps)
        (dry_steps-Completes os (plan_calls order c) s)

  -- On a machine none of whose calls fails, a plan that was built is carried out in full: there is
  -- one result for each step, in order, and no error, and the machine is the one on which the
  -- commands were run and the files replaced, one behind the other.
  pub build_plan-execute :
      NeverFails os
      → Completes plan.steps (execute os false plan s)
        × ((execute os false plan s).0 ≡ machine_after os (plan_calls order c) s)
  unfolding execute
  build_plan-execute ok_os =
      let sound = plan_calls-AreSound order c in
      (
        subst (λ steps. Completes steps (execute_steps os false steps s)) (sym build_plan-steps)
            (real_steps-Completes os ok_os (plan_calls order c) s sound),
        ap (λ steps. (execute_steps os false steps s).0) build_plan-steps
            ∙ real_steps-state os ok_os (plan_calls order c) s sound,
      )
