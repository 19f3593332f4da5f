-- ===== src/Cli.antt =====
-- cmd/lasd/main.go: what the command does, by its flags.
pub mod Laws
mod Tests
use las.Prelude.{
  String, Bool, true, false, ◌||◌, Option, none, some, List, [], ◌∷◌, ◌≡◌, refl, ap, ◌∙◌, sym, ◌↔◌,
  not, if◌then◌else◌,
}
use las.Errors.{Result, ok, err}
use las.Os.{Os, Outcome, done, failed}
use las.Control.{Plan, StepResult}
use las.Control.Executor.{execute}
use las.Config.{Config}
use las.Builder.{build_plan}
use las.Store.{Disk, Json, Failure, system, invalid, Attempt, gives, fails, load, init}
use las.Store.Loads.{IsLoadable, load_iff}
use las.Web.Messages.{Options}

pub record Flags : Type 0 where
  pub config_path : String
  pub web_dir : String
  pub listen : String
  pub apply : Bool
  pub plan_only : Bool
  pub validate : Bool
  pub init_config : Bool

-- How the command goes on or ends: the file that it made, the answer to `-validate`, the plan that it
-- printed, the options of the server that it starts, or `fatal`.
pub data Ending : Type 0 where
  created : String → Ending
  is_valid : Ending
  printed : String → Ending
  serving : Options → Ending
  fatal : Failure → Ending

module _ (os : Os) (disk : Disk os) (json : Json) (plan_json : Plan → Outcome String)
    (order : List String → List String) where
  print_json : Outcome String → Ending
  print_json (failed e) = fatal (system e)
  print_json (done text) = printed text

  -- `router.BuildPlan` and `plan.JSON`.
  print_plan : Result Plan → Ending
  unfolding print_json
  print_plan (err e) = fatal (invalid e)
  print_plan (ok plan) = print_json (plan_json plan)

  -- `-validate` and `-plan` behind `config.Load`.
  report : Bool → Attempt Config → Ending
  unfolding print_plan
  report validate_only (fails f) = fatal f
  report validate_only (gives c) =
      if validate_only then is_valid else print_plan (build_plan order c)

  -- `-init-config` behind `config.Init`.
  initialised : String → os.State × Attempt (Unit {0}) → os.State × Ending
  initialised path (s, fails f) = (s, fatal f)
  initialised path (s, gives _) = (s, created path)

  unfoldable pub main : Flags → os.State → os.State × Ending
  unfolding report initialised
  main flags s =
      if flags.init_config
      then initialised flags.config_path (init os json disk flags.config_path s)
      else if flags.validate || flags.plan_only
      then (s, report flags.validate (load os json disk flags.config_path s))
      else (
        s,
        serving (record {
          config_path = flags.config_path;
          web_dir = flags.web_dir;
          listen = flags.listen;
          apply = flags.apply;
        }),
      )

  -- `executeForCLI`
  unfoldable pub execute_for_cli :
      Plan → Bool → os.State → os.State × List StepResult × Option String
  execute_for_cli plan apply s = execute os (not apply) plan s
