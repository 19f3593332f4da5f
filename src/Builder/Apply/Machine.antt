-- ===== src/Builder/Apply/Machine.antt =====
-- The steps of a plan, carried out one by one: their results, and the machine that they leave.
use las.Control.Executor.{
  go_on, Done, dry_step, run_command, perform, real_step, one_step, execute_steps,
}
use las.Control.Files.{write_file}
use las.Control.{Command, StepResult, Step}
use las.Prelude.{
  Option, String, true, false, none, some, List, [], ◌∷◌, map, str_eq, ◌≡◌, refl, ap, ◌∙◌,
}
use las.Os.{Os, NeverFails}
use las.Builder.Sound.{IsSound, AreSound, sound_command, sound_script, sound_write, sound_warning}
use std.Path.{ap₂}
use las.Builder.Trace.{Call, Calls, command, write, warning}
use las.Builder.Apply.Steps.{
  step_of, real_step-step, dry_step-step, dry_step-IsSound, real_step-none, IsProgram-ne,
}

-- There is a result for every step, in the order of the plan, and no error.
unfoldable pub Completes : {S : Type 0} → List Step → S × List StepResult × Option String → Type 0
Completes steps (s, results, error) = (map StepResult.step results ≡ steps) × (error ≡ none)

some-clash : {A : Type 0} {a : A} → some a ≡ none → ⊥
some-clash h = cc

module _ {S : Type 0} where
  go_on-state :
      (m : S × Done) (rest : S → S × List StepResult × Option String)
      → m.1.1 ≡ none
      → (go_on m rest).0 ≡ (rest m.0).0
  unfolding go_on
  go_on-state (s, (result, some e)) rest h = absurd (some-clash h)
  go_on-state (s, (result, none)) rest h = refl

  go_on-Completes :
      (step : Step) (steps : List Step) (m : S × Done)
      (rest : S → S × List StepResult × Option String)
      → m.1.0.step ≡ step
      → m.1.1 ≡ none
      → ((s : S) → Completes steps (rest s))
      → Completes (step ∷ steps) (go_on m rest)
  unfolding Completes go_on
  go_on-Completes step steps (s, (result, some e)) rest p h f = absurd (some-clash h)
  go_on-Completes step steps (s, (result, none)) rest p h f = (ap₂ ◌∷◌ p (f s).0, (f s).1)

pub dry_steps-Completes :
    (os : Os) (calls : Calls) (s : os.State)
    → Completes (map step_of calls) (execute_steps os true (map step_of calls) s)
unfolding Completes execute_steps one_step
dry_steps-Completes os [] s = (refl, refl)
dry_steps-Completes os (call ∷ calls) s =
    go_on-Completes (step_of call) (map step_of calls) (s, dry_step (step_of call)) _
      (dry_step-step call) (dry_step-IsSound call) (dry_steps-Completes os calls)

pub real_steps-Completes :
    (os : Os)
    → NeverFails os
    → (calls : Calls) (s : os.State) → AreSound calls
    → Completes (map step_of calls) (execute_steps os false (map step_of calls) s)
unfolding Completes execute_steps one_step
real_steps-Completes os ok_os [] s _ = (refl, refl)
real_steps-Completes os ok_os (call ∷ calls) s (h, k) =
    go_on-Completes (step_of call) (map step_of calls) (real_step os (step_of call) s) _
      (real_step-step os (step_of call) s) (real_step-none os ok_os call s h)
      (λ t. real_steps-Completes os ok_os calls t k)

module _ (os : Os) where
  -- What a call asks of the machine: the run of its command, or the replacement of its file.
  unfoldable pub done_by : Call → os.State → os.State
  done_by (command description program args) s = (os.run program args s).0
  done_by (write description path mode content) s = (write_file os path mode content s).0
  done_by (warning format args) s = s

  -- The machine after the calls, one behind the other.
  unfoldable pub machine_after : Calls → os.State → os.State
  machine_after [] s = s
  machine_after (call ∷ calls) s = machine_after calls (done_by call s)

  run_command-state :
      (c : Command) (s : os.State)
      → str_eq c.program "" ≡ false
      → (run_command os c s).0 ≡ (os.run c.program c.args s).0
  unfolding run_command
  run_command-state c s h = rw h refl

  real_step-state :
      (call : Call) (s : os.State)
      → IsSound call
      → (real_step os (step_of call) s).0 ≡ done_by call s
  unfolding real_step step_of perform done_by
  real_step-state (command d p args) s (sound_command h) =
      run_command-state (record { program = p; args = args }) s (IsProgram-ne p h)
  real_step-state (command d p args) s (sound_script _) =
      run_command-state (record { program = p; args = args }) s refl
  real_step-state (write d path mode content) s (sound_write h) = refl
  real_step-state (warning format args) s sound_warning = refl

  pub real_steps-state :
      NeverFails os
      → (calls : Calls) (s : os.State) → AreSound calls
      → (execute_steps os false (map step_of calls) s).0 ≡ machine_after calls s
  unfolding execute_steps one_step machine_after
  real_steps-state ok_os [] s _ = refl
  real_steps-state ok_os (call ∷ calls) s (h, k) =
      go_on-state (real_step os (step_of call) s) _ (real_step-none os ok_os call s h)
      ∙ real_steps-state ok_os calls _ k
      ∙ ap (machine_after calls) (real_step-state call s h)
