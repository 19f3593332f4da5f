-- ===== src/Cli/Tests.antt =====
-- The command at concrete flags.
use las.Prelude.{String, List, none, false, true, some, str_eq, if◌then◌else◌}
use las.Os.{done, Outcome}
use las.Os.Memory.{Files}
use las.Control.{Plan}
use las.Cli.{Flags}

abbrev flags : Flags
flags = record {
  config_path = "/etc/las/router.json";
  web_dir = "/usr/share/las/web";
  listen = "";
  apply = false;
  plan_only = false;
  validate = true;
  init_config = false;
}

abbrev plan_text : Plan → Outcome String
plan_text plan = done "{}"

abbrev same_order : List String → List String
same_order keys = keys

abbrev one_file : Files
one_file path = if str_eq path "/etc/las/router.json" then some "sample" else none
