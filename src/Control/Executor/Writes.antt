-- ===== src/Control/Executor/Writes.antt =====
-- Plans of file writes, carried out.
use las.Prelude.{
  Option, Any, inl, inr, if◌then◌else◌, String, Bool, true, false, none, some, List, [], ◌∷◌, map,
  All, Distinct, ◌≡◌, ◌≢◌, refl, ◌∙◌, sym, ap, str_eq,
}
use mathlib.Core.Path.{subst}
use las.Os.{Spared, Os, IsLawful, Outcome, done, failed}
use las.Control.{Step, StepResult, Plan, step_command, step_warning, step_write}
use las.Control.Files.{write_file}
use las.Control.Files.Atomic.{IsAtomic, write_file-IsAtomic}
use las.Control.Executor.{
  Done, result_of, go_on_rule, one_step, execute_steps, execute, perform, real_step, error_of,
  error_text,
}

abbrev pub IsWrite : Step → Type 0
IsWrite step = step.kind ≡ step_write

-- A path that is not written, by the error.
abbrev pub Untouched : Option String → Option String → Option String → Type 0
Untouched none before after = after ≡ before
Untouched (some e) before after = Spared before after

Untouched-none :
    {e before after : Option String} → e ≡ none → Untouched e before after → after ≡ before
Untouched-none {e} {before} {after} h u = subst (λ o. Untouched o before after) h u

Untouched-trans :
    (e : Option String) {a b : Option String} (c : Option String)
    → b ≡ a
    → Untouched e b c
    → Untouched e a c
Untouched-trans none c h u = u ∙ h
Untouched-trans (some e) c h (inl u) = inl (u ∙ h)
Untouched-trans (some e) c h (inr u) = inr (sym h ∙ u)

-- A step that writes a file, from the state before.
abbrev Written : (os : Os) → Step → os.State → os.State × Done → Type 0
Written os step s (t, (r, error)) =
    (error ≡ none → os.content t step.path ≡ some step.content)
    × ((q : String) → q ≢ step.path → Untouched error (os.content s q) (os.content t q))

choose_true : {A : Type 0} (b : Bool) (x y : A) → b ≡ true → (if b then x else y) ≡ x
choose_true true x y e = refl
choose_true false x y e = cc

choose_false : {A : Type 0} (b : Bool) (x y : A) → b ≡ false → (if b then x else y) ≡ y
choose_false true x y e = cc
choose_false false x y e = refl

perform-write :
    (os : Os) (step : Step) (s : os.State)
    → IsWrite step
    → perform os step s ≡ (
      (write_file os step.path step.mode step.content s).0,
      "",
      error_of (write_file os step.path step.mode step.content s).1,
    )
unfolding perform
perform-write os step s w =
    choose_false (str_eq step.kind step_command) _ _ (ap (λ k. str_eq k step_command) w)
    ∙ choose_true (str_eq step.kind step_write) _ _ (ap (λ k. str_eq k step_write) w)

real_step-write :
    (os : Os) (step : Step) (s : os.State)
    → IsWrite step
    → real_step os step s ≡ (
      (perform os step s).0,
      (
        result_of false step (perform os step s).1 (error_text (perform os step s).2),
        (perform os step s).2,
      ),
    )
unfolding real_step
real_step-write os step s w =
    choose_false (str_eq step.kind step_warning) _ _ (ap (λ k. str_eq k step_warning) w)

IsAtomic-Written :
    (os : Os) (step : Step) (s : os.State) (m : os.State × Outcome (Unit {0})) (r : StepResult)
    → IsAtomic os step.path step.content s m
    → Written os step s (m.0, (r, error_of m.1))
IsAtomic-Written os step s (t, done _) r (here, others) = (λ _. here, others)
IsAtomic-Written os step s (t, failed e) r (here, others) = (λ h. cc, others)

write_step :
    (os : Os)
    → IsLawful os
    → (step : Step) (s : os.State) → IsWrite step
    → Written os step s (one_step os false step s)
unfolding one_step
write_step os law step s w =
    let m = write_file os step.path step.mode step.content s in
    let r = result_of false step "" (error_text (error_of m.1)) in
    rw (real_step-write os step s w) (
      rw (perform-write os step s w) (
        IsAtomic-Written os step s m r
          (write_file-IsAtomic os law step.path step.mode step.content s)))

steps-others :
    (os : Os)
    → IsLawful os
    → (steps : List Step) (s : os.State) → All IsWrite steps
    → (q : String) → ¬ Any (λ p. p ≡ q) (map Step.path steps)
    → Untouched
        (execute_steps os false steps s).2
        (os.content s q)
        (os.content (execute_steps os false steps s).0 q)
unfolding execute_steps
steps-others os law [] s w q n = refl
steps-others os law (step ∷ steps) s (w, ws) q n =
    let first = (write_step os law step s w).1 q (λ k. n (inl (sym k))) in
    let m = one_step os false step s in
    go_on_rule (λ r. Untouched r.2 (os.content s q) (os.content r.0 q)) m _
      (λ e h. subst (λ o. Untouched o (os.content s q) (os.content m.0 q)) h first)
      (λ h.
        Untouched-trans _ _ (Untouched-none h first)
          (steps-others os law steps _ ws q (λ k. n (inr k))))

steps-writes :
    (os : Os)
    → IsLawful os
    → (steps : List Step) (s : os.State) → All IsWrite steps
    → Distinct (map Step.path steps)
    → (execute_steps os false steps s).2 ≡ none
    → All
        (λ step. os.content (execute_steps os false steps s).0 step.path ≡ some step.content)
        steps
unfolding execute_steps
steps-writes os law [] s w d = λ e. tt
steps-writes os law (step ∷ steps) s (w, ws) (n, d) =
    go_on_rule
      (λ r. r.2 ≡ none → All (λ step. os.content r.0 step.path ≡ some step.content) (step ∷ steps))
      (one_step os false step s) _ (λ e _ h. cc)
      (λ h e. (
        Untouched-none e (steps-others os law steps _ ws step.path n)
            ∙ (write_step os law step s w).0 h,
        steps-writes os law steps _ ws d e,
      ))

-- A plan of file writes to different paths, carried out with no error on a machine whose file calls
-- behave as documented, leaves each path with the content of its step.
pub execute-writes :
    (os : Os)
    → IsLawful os
    → (plan : Plan) (s : os.State) → All IsWrite plan.steps
    → Distinct (map Step.path plan.steps)
    → (execute os false plan s).2 ≡ none
    → All (λ step. os.content (execute os false plan s).0 step.path ≡ some step.content) plan.steps
unfolding execute
execute-writes os law plan s = steps-writes os law plan.steps s

-- On a machine whose file calls behave as documented, a plan of file writes leaves every path that
-- is in none of its steps as it was; when the run ends with an error, such a path may also be a new
-- one.
pub execute-others :
    (os : Os)
    → IsLawful os
    → (plan : Plan) (s : os.State) → All IsWrite plan.steps
    → (q : String) → ¬ Any (λ p. p ≡ q) (map Step.path plan.steps)
    → Untouched
        (execute os false plan s).2
        (os.content s q)
        (os.content (execute os false plan s).0 q)
unfolding execute
execute-others os law plan s = steps-others os law plan.steps s
