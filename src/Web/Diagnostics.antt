-- ===== src/Web/Diagnostics.antt =====
-- internal/web/server.go: `diagnosticsCommand`, and what it may start.
pub mod Laws
use las.Fmt.{itoa}
use las.Prelude.{
  ◌&&◌, ℤ, pos, int_lt, String, Bool, true, false, not, ◌||◌, Option, none, some, List, [], ◌∷◌,
  str_eq, if◌then◌else◌,
}
use las.Errors.{str, Error, errorf, Result, ok, err}
use las.Control.{Command}
use las.Builder.Options.{trim, trim_left, trim_right, is_space}

pub record DiagnosticsRequest : Type 0 where
  pub tool : String
  pub target : String
  pub count : ℤ

-- `count := req.Count` with the two guards.
unfoldable pub bounded_count : ℤ → ℤ
bounded_count count =
    let some_count = if int_lt (pos 0) count then count else pos 4 in
    if int_lt (pos 10) some_count then pos 10 else some_count

command_of : String → List String → Result Command
command_of program args = ok (record { program = program; args = args })

-- `url.Parse`: the scheme and the host, unless there is an error.
web_url : Option (String × String) → Bool
web_url none = false
web_url (some (scheme, host)) =
    (str_eq scheme "http" || str_eq scheme "https") && not (str_eq host "")

-- The `switch` on the tool.
tool_command : (String → Option (String × String)) → String → ℤ → String → Result Command
unfolding web_url command_of
tool_command parse_url tool count target =
    if str_eq tool "ping"
    then command_of "ping" ("-c" ∷ itoa count ∷ "-W" ∷ "3" ∷ target ∷ [])
    else if str_eq tool "traceroute"
    then command_of "traceroute" ("-n" ∷ target ∷ [])
    else if str_eq tool "curl-head"
    then (if web_url (parse_url target)
        then command_of "curl" ("-I" ∷ "--max-time" ∷ "10" ∷ target ∷ [])
        else err (errorf "curl target must be an http or https URL" []))
    else if str_eq tool "dig"
    then command_of "dig" ("+short" ∷ target ∷ [])
    else if str_eq tool "route"
    then command_of "ip" ("route" ∷ "get" ∷ target ∷ [])
    else err (errorf "unsupported diagnostics tool %q" (str tool ∷ []))

-- The first argument is `url.Parse`.
unfoldable pub diagnostics_command :
    (String → Option (String × String)) → DiagnosticsRequest → Result Command
unfolding bounded_count tool_command trim_left trim_right
diagnostics_command parse_url req =
    let target = trim is_space req.target in
    if str_eq target ""
    then err (errorf "target is required" [])
    else tool_command parse_url req.tool (bounded_count req.count) target
