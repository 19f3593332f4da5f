-- ===== src/Control.antt =====
-- internal/control/plan.go: plans, and commands as shell text.
pub mod Shell
pub mod Files
pub mod Executor
mod Tests
use Prim.Native.Char.{Char}
use las.Prelude.{
  ℕ, String, Bool, true, false, not, ◌||◌, ◌&&◌, ◌==◌, Option, none, some, List, [], ◌∷◌, ◌++◌, map,
  code, codes, has_code, is_letter, is_digit, ◌<>◌, join, str_eq, if◌then◌else◌,
}
use las.Errors.{Arg}
use las.Fmt.{sprintf}

-- `StepKind` is a string; these are its constants.
abbrev pub step_command : String
step_command = "command"

abbrev pub step_write : String
step_write = "write_file"

abbrev pub step_warning : String
step_warning = "warning"

pub record Command : Type 0 where
  pub program : String
  pub args : List String

pub record Step : Type 0 where
  pub kind : String
  pub description : String
  pub command : Option Command
  pub path : String
  pub mode : String
  pub content : String

pub record Plan : Type 0 where
  pub steps : List Step

pub record StepResult : Type 0 where
  pub step : Step
  pub output : String
  pub error : String
  pub dry_run : Bool
  pub interrupted : Bool

unfoldable pub add_command : Plan → String → String → List String → Plan
add_command plan description program args = record {
  steps =
      plan.steps
      ++ record {
        kind = step_command;
        description = description;
        command = some (record { program = program; args = args });
        path = "";
        mode = "";
        content = "";
      }
        ∷ [];
}

unfoldable pub add_write : Plan → String → String → String → String → Plan
add_write plan description path mode content = record {
  steps =
      plan.steps
      ++ record {
        kind = step_write;
        description = description;
        command = none;
        path = path;
        mode = mode;
        content = content;
      }
        ∷ [];
}

unfoldable pub add_warning : Plan → String → List Arg → Plan
add_warning plan format args = record {
  steps =
      plan.steps
      ++ record {
        kind = step_warning;
        description = sprintf format args;
        command = none;
        path = "";
        mode = "";
        content = "";
      }
        ∷ [];
}

-- A character that needs no quotes.
abbrev pub is_plain : ℕ → Bool
is_plain c = is_letter c || is_digit c || has_code c (codes "@%_+=:,./-")

unfoldable pub all_plain : String → Bool
all_plain String.[] = true
all_plain (String.◌∷◌ c s) = is_plain (code c) && all_plain s

-- `strings.ReplaceAll(value, "'", "'\"'\"'")`
unfoldable pub replace_quotes : String → String
replace_quotes String.[] = ""
replace_quotes (String.◌∷◌ c s) =
    (if code c == b'\'' then "'\"'\"'" else String.◌∷◌ c "") <> replace_quotes s

unfoldable pub shell_quote : String → String
unfolding all_plain replace_quotes
shell_quote value =
    if str_eq value ""
    then "''"
    else if all_plain value
    then value
    else "'" <> replace_quotes value <> "'"

-- `Command.String`
unfoldable pub command_string : Command → String
unfolding shell_quote join
command_string c = join (map shell_quote (c.program ∷ c.args)) " "
