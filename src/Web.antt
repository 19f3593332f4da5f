-- ===== src/Web.antt =====
-- internal/web/server.go: the handlers of the HTTP server, each from a request and a state of the
-- machine to a state and a response.
pub mod Messages
pub mod Status
pub mod Keeps
pub mod Refines
pub mod Runs
mod Tests
pub mod Diagnostics
use las.Prelude.{
  ◌++◌, ℕ, String, Bool, true, false, not, ◌||◌, ◌&&◌, Option, none, some, List, [], ◌∷◌, str_eq,
  if◌then◌else◌,
}
use las.Errors.{Result, ok, err, str}
use las.Fmt.{sprintf}
use las.Os.{Os, Outcome, done, failed, Ending, finished, cancelled, exited}
use las.Control.{Command, Plan, StepResult}
use las.Control.Executor.{execute, error_text}
use las.Config.{Config, default_config}
use las.Builder.{build_plan}
use las.Builder.Options.{has_prefix}
use las.Store.{
  Disk, Json, Failure, not_found, system, invalid, Attempt, gives, fails, checked, load, save,
}
use las.Web.Status.{Runtime, HostStatus, probe_status}
use las.Web.Diagnostics.{DiagnosticsRequest, diagnostics_command}
use las.Web.Messages.{
  Listener, method_not_allowed, Options, Request, Reply, Response, Platform, respond,
  secure_headers, write_error, config_reply, saved_reply, plan_reply, apply_reply, status_reply,
  diagnostics_reply, error_reply, file_reply,
}

-- The error of `cmd.CombinedOutput()`.
command_error : String → Ending → Option String
command_error killed finished = none
command_error killed (cancelled e) = some killed
command_error killed (exited e) = some e

-- The status of the response to a run.
abbrev pub run_status : Option String → ℕ
run_status none = 200
run_status (some e) = 500

-- A response to an error, or from a value.
unfoldable answer : {A : Type 0} → ℕ → Attempt A → (A → Response) → Response
answer status (fails e) f = write_error status e
answer status (gives a) f = f a

-- `router.BuildPlan(cfg)`
unfoldable planned : {A : Type 0} → Result A → Attempt A
planned (ok a) = gives a
planned (err e) = fails (invalid e)

-- A decoded body, or the error with what was to be decoded.
unfoldable body_of : {A : Type 0} → String → Outcome A → Attempt A
body_of what (done a) = gives a
body_of what (failed e) = fails (system (sprintf "decode %s: %w" (str what ∷ str e ∷ [])))

unfoldable and_then : {A B : Type 0} → Attempt A → (A → Attempt B) → Attempt B
and_then (fails e) f = fails e
and_then (gives a) f = f a

-- `errors.Is(err, os.ErrNotExist)` behind `config.Load`.
unfoldable or_default : Attempt Config → Attempt Config
or_default (gives c) = gives c
or_default (fails (not_found e)) = checked default_config
or_default (fails (system e)) = fails (system e)
or_default (fails (invalid e)) = fails (invalid e)

-- A handler behind an error, or behind a value.
unfoldable behind : {S A : Type 0} → ℕ → Attempt A → (A → S → S × Response) → S → S × Response
behind status (fails e) f s = (s, write_error status e)
behind status (gives a) f s = f a s

-- The response to `config.Save`.
unfoldable saved : {S : Type 0} → S × Attempt (Unit {0}) → S × Response
saved (s, fails e) = (s, write_error 400 e)
saved (s, gives _) = (s, respond 200 saved_reply)

module _ (os : Os) (platform : Platform os) (options : Options) where
  unfoldable pub load_config_or_default : os.State → Attempt Config
  unfolding or_default
  load_config_or_default s =
      if str_eq options.config_path ""
      then checked default_config
      else or_default (load os platform.json platform.disk options.config_path s)

  unfoldable pub config_from_request : Request → os.State → Attempt Config
  unfolding and_then body_of
  config_from_request r s =
      if str_eq r.method "POST" && has_prefix "application/json" r.content_type
      then and_then (body_of "config" (platform.json.decode_first r.body)) checked
      else load_config_or_default s

  -- `PUT /api/config` behind the decoding.
  unfoldable pub put_config : Config → os.State → os.State × Response
  unfolding saved
  put_config c s = saved (save os platform.json options.config_path c s)

  unfoldable pub handle_config : Request → os.State → os.State × Response
  unfolding answer behind body_of
  handle_config r s =
      if str_eq r.method "GET"
      then (s, answer 500 (load_config_or_default s) (λ c. respond 200 (config_reply c)))
      else if str_eq r.method "PUT"
      then behind 400 (body_of "config" (platform.json.decode_first r.body)) put_config s
      else (s, method_not_allowed)

  unfoldable pub handle_default_config : Request → os.State → os.State × Response
  handle_default_config r s =
      if str_eq r.method "GET"
      then (s, respond 200 (config_reply default_config))
      else (s, method_not_allowed)

  unfoldable pub plan_from_request : Request → os.State → Attempt Plan
  unfolding and_then planned
  plan_from_request r s =
      and_then (config_from_request r s) (λ c. planned (build_plan platform.order c))

  unfoldable pub handle_plan : Request → os.State → os.State × Response
  unfolding answer
  handle_plan r s =
      if str_eq r.method "POST" || str_eq r.method "GET"
      then (s, answer 400 (plan_from_request r s) (λ plan. respond 200 (plan_reply plan)))
      else (s, method_not_allowed)

  -- `handleApply` behind the plan.
  unfoldable pub apply_plan : Plan → os.State → os.State × Response
  apply_plan plan s =
      let dry = not options.apply in
      let (t, results, error) = execute os dry plan s in
      (t, respond (run_status error) (apply_reply options.apply dry results error))

  unfoldable pub handle_apply : Request → os.State → os.State × Response
  unfolding behind
  handle_apply r s =
      if str_eq r.method "POST"
      then behind 400 (plan_from_request r s) apply_plan s
      else (s, method_not_allowed)

  -- `control.ProbeStatus(ctx)`, written to the response.
  unfoldable pub report_status : os.State → os.State × Response
  report_status s =
      let (t, status) = probe_status os platform.runtime platform.now s in
      (t, respond 200 (status_reply status))

  unfoldable pub handle_status : Request → os.State → os.State × Response
  handle_status r s = if str_eq r.method "GET" then report_status s else (s, method_not_allowed)

  -- `handleDiagnostics` behind the command.
  unfoldable pub run_diagnostics : Command → os.State → os.State × Response
  unfolding command_error
  run_diagnostics c s =
      let (t, output, ending) = os.run c.program c.args s in
      (t, respond 200 (diagnostics_reply c output (command_error platform.killed ending)))

  unfoldable pub diagnostics_from_request : Request → Attempt Command
  unfolding and_then planned body_of
  diagnostics_from_request r =
      and_then (body_of "diagnostics request" (platform.decode_diagnostics r.body))
        (λ req. planned (diagnostics_command platform.parse_url req))

  unfoldable pub handle_diagnostics : Request → os.State → os.State × Response
  unfolding behind
  handle_diagnostics r s =
      if str_eq r.method "POST"
      then behind 400 (diagnostics_from_request r) run_diagnostics s
      else (s, method_not_allowed)

  -- The directory of the files of the web interface.
  abbrev pub web_dir : String
  web_dir = if str_eq options.web_dir "" then "./web" else options.web_dir

  -- `mux`: the handler by the path.
  unfoldable pub handle_path : Request → os.State → os.State × Response
  handle_path r s =
      if str_eq r.path "/api/config"
      then handle_config r s
      else if str_eq r.path "/api/plan"
      then handle_plan r s
      else if str_eq r.path "/api/apply"
      then handle_apply r s
      else if str_eq r.path "/api/status"
      then handle_status r s
      else if str_eq r.path "/api/diagnostics"
      then handle_diagnostics r s
      else if str_eq r.path "/api/default-config"
      then handle_default_config r s
      else (s, platform.serve_file web_dir r s)

  -- `secureHeaders(mux)`
  unfoldable pub handle : Request → os.State → os.State × Response
  handle r s =
      let (t, response) = handle_path r s in
      (t, record response { headers = secure_headers ++ response.headers })

  -- The address that `Serve` listens on.
  unfoldable pub listen_address : Config → String
  listen_address c =
      let listen = if str_eq options.listen "" then c.ui.listen else options.listen in
      if str_eq listen "" then "127.0.0.1:8088" else listen

  -- `ListenAndServeTLS` with its two files, or `ListenAndServe`.
  listener_for : Config → Listener
  unfolding listen_address
  listener_for c = record {
    address = listen_address c;
    tls_files =
        if not (str_eq c.ui.tls_cert_file "") && not (str_eq c.ui.tls_key_file "")
        then some (c.ui.tls_cert_file, c.ui.tls_key_file)
        else none;
  }

  -- `Serve` up to the listener that it starts.
  unfoldable pub serve : os.State → Attempt Listener
  unfolding and_then listener_for
  serve s = and_then (load_config_or_default s) (λ c. gives (listener_for c))
