-- ===== src/Control/Executor/Laws.antt =====
-- What `Execute` does with a plan: it stops at the first error, and a dry run does nothing.
use las.Control.Executor.{
  perform, written, Done, go_on, go_on_rule, one_step, execute_steps, execute, dry_step,
  dry_command, real_step, error_text, result_of,
}
use las.Prelude.{
  String, Bool, true, false, Option, none, some, List, [], ◌∷◌, ◌++◌, ◌≡◌, refl, ◌∙◌, ap, str_eq,
  if◌then◌else◌,
}
use las.Os.{Os}
use las.Control.{Step, StepResult, Plan, Command, step_command, step_warning, step_write}

-- A run: the state after it, the results, and the error.
abbrev pub Run : Type 0 → Type 0
Run S = S × List StepResult × Option String

steps-dry : (os : Os) (steps : List Step) (s : os.State) → (execute_steps os true steps s).0 ≡ s
unfolding execute_steps one_step
steps-dry os [] s = refl
steps-dry os (step ∷ steps) s =
    go_on_rule (λ r. r.0 ≡ s) (s, dry_step step) _ (λ e _. refl) (λ _. steps-dry os steps s)

-- A dry run leaves the machine as it is, whatever the plan.
pub execute-dry : (os : Os) (plan : Plan) (s : os.State) → (execute os true plan s).0 ≡ s
unfolding execute
execute-dry os plan s = steps-dry os plan.steps s

-- A run, and another one behind it if the first reports no error.
unfoldable pub follow : {S : Type 0} → Run S → (S → Run S) → Run S
follow (s, results, some e) rest = (s, results, some e)
follow (s, results, none) rest = let (t, more, e) = rest s in (t, results ++ more, e)

put : {S : Type 0} → StepResult → Run S → Run S
put result (t, results, e) = (t, result ∷ results, e)

put-follow :
    {S : Type 0} (result : StepResult) (r : Run S) (g : S → Run S)
    → put result (follow r g) ≡ follow (put result r) g
unfolding follow put
put-follow result (t, results, some e) g = refl
put-follow result (t, results, none) g = refl

follow-some :
    {S : Type 0} (s : S) (results : List StepResult) (e : String) (g : S → Run S)
    → (s, results, some e) ≡ follow (s, results, some e) g
unfolding follow
follow-some s results e g = refl

go_on-follow :
    {S : Type 0} (m : S × Done) (f g : S → Run S)
    → go_on m (λ s. follow (f s) g) ≡ follow (go_on m f) g
unfolding go_on put
go_on-follow (s, (result, some e)) f g = follow-some s (result ∷ []) e g
go_on-follow (s, (result, none)) f g = put-follow result (f s) g

follow-none : {S : Type 0} (s : S) (g : S → Run S) → g s ≡ follow (s, [], none) g
unfolding follow
follow-none s g = refl

steps-append :
    (os : Os) (dry : Bool) (xs ys : List Step) (s : os.State)
    → execute_steps os dry (xs ++ ys) s
      ≡ follow (execute_steps os dry xs s) (execute_steps os dry ys)
unfolding execute_steps
steps-append os dry [] ys s = follow-none s (execute_steps os dry ys)
steps-append os dry (x ∷ xs) ys s =
    ap (go_on (one_step os dry x s)) (λ i t. steps-append os dry xs ys t i)
    ∙ go_on-follow (one_step os dry x s) (execute_steps os dry xs) (execute_steps os dry ys)

-- The results and the error that the steps of a plan may have.
pub data Accounts (dry : Bool) : List Step → List StepResult → Option String → Type 0 where
  all_done : Accounts dry [] [] none
  stopped :
      (step : Step) (rest : List Step) (r : StepResult) (e : String)
      → r.step ≡ step
      → r.dry_run ≡ dry
      → (dry ≡ false → r.error ≡ e)
      → Accounts dry (step ∷ rest) (r ∷ []) (some e)
  recorded :
      {steps : List Step} {results : List StepResult} {e : Option String} (step : Step)
      (r : StepResult)
      → r.step ≡ step
      → r.dry_run ≡ dry
      → r.error ≡ ""
      → Accounts dry steps results e
      → Accounts dry (step ∷ steps) (r ∷ results) e

-- What a step's result says of it.
abbrev Tells : Bool → Step → Done → Type 0
Tells dry step (r, error) =
    (r.step ≡ step)
    × (r.dry_run ≡ dry)
    × (error ≡ none → r.error ≡ "")
    × ((e : String) → error ≡ some e → dry ≡ false → r.error ≡ e)

dry_command-Tells : (step : Step) (c : Option Command) → Tells true step (dry_command step c)
unfolding dry_command
dry_command-Tells step none = (refl, refl, λ h. cc, λ e h k. cc)
dry_command-Tells step (some c) = (refl, refl, λ h. refl, λ e h k. cc)

plain-Tells :
    (step : Step) (output : String) → Tells true step (result_of true step output "", none)
plain-Tells step output = (refl, refl, λ h. refl, λ e h k. cc)

if_rule : {A : Type 0} (P : A → Type 0) (b : Bool) {x y : A} → P x → P y → P (if b then x else y)
if_rule P true h k = h
if_rule P false h k = k

dry_step-Tells : (step : Step) → Tells true step (dry_step step)
unfolding dry_step
dry_step-Tells step =
    if_rule (Tells true step) (str_eq step.kind step_warning) (plain-Tells step "") (
      if_rule (Tells true step) (str_eq step.kind step_command)
        (dry_command-Tells step step.command)
        (if_rule (Tells true step) (str_eq step.kind step_write) (plain-Tells step (written step))
          (plain-Tells step "")))

real-Tells :
    (step : Step) (output : String) (error : Option String)
    → Tells false step (result_of false step output (error_text error), error)
real-Tells step output none = (refl, refl, λ h. refl, λ e h k. cc)
real-Tells step output (some e) = (refl, refl, λ h. cc, λ e' h k. cc)

perform-Tells : (os : Os) (step : Step) (s : os.State) → Tells false step (real_step os step s).1
unfolding real_step
perform-Tells os step s =
    if_rule {A = os.State × Done} (λ r. Tells false step r.1) (str_eq step.kind step_warning)
      (real-Tells step "" none) (real-Tells step (perform os step s).1 (perform os step s).2)

one_step-Tells :
    (os : Os) (dry : Bool) (step : Step) (s : os.State) → Tells dry step (one_step os dry step s).1
unfolding one_step
one_step-Tells os true step s = dry_step-Tells step
one_step-Tells os false step s = perform-Tells os step s

steps-Accounts :
    (os : Os) (dry : Bool) (steps : List Step) (s : os.State)
    → Accounts dry steps (execute_steps os dry steps s).1 (execute_steps os dry steps s).2
unfolding execute_steps
steps-Accounts os dry [] s = all_done
steps-Accounts os dry (step ∷ steps) s =
    let (same, kind, quiet, loud) = one_step-Tells os dry step s in
    go_on_rule (λ r. Accounts dry (step ∷ steps) r.1 r.2) (one_step os dry step s) _
      (λ e h. stopped step steps _ e same kind (loud e h))
      (λ h. recorded step _ same kind (quiet h) (steps-Accounts os dry steps _))

-- Running two plans' steps as one plan is running the first and, if it reports no error, the second
-- on the state that the first left, with the results one after the other: an error of the first
-- ends the run and its remaining steps and those of the second are not carried out.
pub execute-append :
    (os : Os) (dry : Bool) (first second : Plan) (s : os.State)
    → execute os dry (record { steps = first.steps ++ second.steps }) s
      ≡ follow (execute os dry first s) (execute os dry second)
unfolding execute
execute-append os dry first second s = steps-append os dry first.steps second.steps s

-- The results of a run stand for the plan's steps in their order, one each, up to the end or to the
-- first step with an error, the only one whose result has an error text other than the empty one; a
-- run that is not dry has the text of the returned error there.
pub execute-Accounts :
    (os : Os) (dry : Bool) (plan : Plan) (s : os.State)
    → Accounts dry plan.steps (execute os dry plan s).1 (execute os dry plan s).2
unfolding execute
execute-Accounts os dry plan s = steps-Accounts os dry plan.steps s
