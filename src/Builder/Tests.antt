-- ===== src/Builder/Tests.antt =====
-- Plans of the sample configuration.
use las.Os.{Os, finished, done, NeverFails}
use las.Builder.Routing.Present.{install, plan_calls-policy_rules}
use las.Builder.Routing.{resolve_rule_route, tunnel_route, resolve_rule_route_with_groups}
use las.Router.Matches.{tunnel_mark, rule_mark}
use las.Validate.Sample.{sample_group, sample_config, sample_tunnel, tunnel_rule}
use las.Config.{Config, default_config, ManagedCertificate, ServicesConfig}
use las.Validate.Run.{run, sample_Passes}
use las.Prelude.{
  true, pos, pos_part, ap, arith, ◌≢◌, inl, Any, refl, ◌<>◌, false, none, String, List, [], ◌∷◌,
  ◌≡◌,
}
use las.Control.{Plan}
use las.Builder.Apply.{build_plan-dry, build_plan-execute}
use las.Builder.Apply.Machine.{machine_after, Completes}
use las.Errors.{ok, ◌>>◌}
use las.Control.Executor.{execute}
use las.Builder.{build_plan, plan_calls}
use las.Builder.Trace.{apply_calls}
use las.Builder.Sound.{AreSound}
use las.Builder.Sound.Parts.{plan_calls-AreSound}

-- The keys of a map in the order in which they came.
abbrev as_they_came : List String → List String
as_they_came keys = keys

plan_calls-AreSound_example : AreSound (plan_calls as_they_came sample_config)
plan_calls-AreSound_example = plan_calls-AreSound as_they_came sample_config

-- A machine that only notes what it is asked to do.
abbrev recorder : Os
recorder = record {
  State = List String;
  content = λ noted path. none;
  run = λ program args noted. (program ∷ noted, "", finished);
  mkdir_all = λ path noted. (noted, done tt);
  create_temp = λ path noted. (noted, done (path <> "~"));
  write = λ name text noted. (name ∷ noted, done tt);
  chmod = λ name mode noted. (noted, done tt);
  close = λ name noted. (noted, done tt);
  rename = λ from to noted. (to ∷ noted, done tt);
  remove = λ name noted. (noted, done tt);
}

recorder-NeverFails : NeverFails recorder
recorder-NeverFails = record {
  run-finished = λ program args noted. refl;
  mkdir_all-done = λ path noted. refl;
  create_temp-done = λ path noted. (path <> "~", refl);
  write-done = λ name text noted. refl;
  chmod-done = λ name mode noted. refl;
  close-done = λ name noted. refl;
  rename-done = λ from to noted. refl;
}

abbrev sample_plan : Plan
sample_plan = apply_calls (record { steps = [] }) (plan_calls as_they_came sample_config)

sample_built : build_plan as_they_came sample_config ≡ ok sample_plan
unfolding build_plan ◌>>◌
sample_built = rw sample_Passes

build_plan-execute_example :
    Completes (Plan.steps sample_plan) (execute recorder false sample_plan [])
    × ((execute recorder false sample_plan []).0
        ≡ machine_after recorder (plan_calls as_they_came sample_config) [])
build_plan-execute_example =
    build_plan-execute as_they_came recorder sample_config [] sample_built recorder-NeverFails

tunnel_rule-mark : rule_mark tunnel_rule (sample_tunnel ∷ []) (sample_group ∷ []) ≢ pos 0
unfolding rule_mark tunnel_mark
tunnel_rule-mark e = omega (arith, ap pos_part e)

tunnel_rule-table :
    (resolve_rule_route_with_groups tunnel_rule (sample_tunnel ∷ []) (sample_group ∷ [])).1 ≢ pos 0
unfolding resolve_rule_route_with_groups resolve_rule_route tunnel_route
tunnel_rule-table e = omega (arith, ap pos_part e)

plan_calls-policy_rules_example :
    Any
      (λ call.
        call
        ≡ install tunnel_rule
            (rule_mark tunnel_rule (sample_tunnel ∷ []) (sample_group ∷ []))
            (resolve_rule_route_with_groups tunnel_rule (sample_tunnel ∷ []) (sample_group ∷ [])).1)
      (plan_calls as_they_came sample_config)
plan_calls-policy_rules_example =
    plan_calls-policy_rules as_they_came sample_config tunnel_rule (inl refl) refl tunnel_rule-mark
      tunnel_rule-table

abbrev router_certificate : ManagedCertificate
router_certificate = record {
  id = "router";
  domains = [];
  cert_file = "/etc/ssl/router.crt";
  key_file = "/etc/ssl/router.key";
  chain_file = "";
  full_chain_file = "";
  owner_service = "";
  renew_hook = "";
}

-- The store in the directory of the configuration itself.
abbrev certificates_in : ServicesConfig → ServicesConfig
certificates_in s = record s {
  certificate_store = record s.certificate_store {
    enabled = true;
    directory = "/etc/las";
    certificates = router_certificate ∷ [];
  };
}

abbrev certified_config : Config
certified_config = record sample_config { services = certificates_in default_config.services }

certified_accepted : run certified_config ≡ ok tt
unfolding run
certified_accepted = refl

build_plan-dry_example : Completes (Plan.steps sample_plan) (execute recorder true sample_plan [])
build_plan-dry_example = build_plan-dry as_they_came recorder sample_config [] sample_built
