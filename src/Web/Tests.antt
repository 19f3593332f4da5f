-- ===== src/Web/Tests.antt =====
-- The server on a machine in memory.
use las.Web.{file_reply, handle}
use las.Prelude.{
  ap, true, ◌≢◌, ◌⊎◌, pos, String, String, Option, none, some, [], ◌∷◌, true, false, pos, str_eq,
  ◌≡◌, ◌≢◌, refl, ◌⊎◌, if◌then◌else◌,
}
use las.Errors.{ok, Passes}
use las.Fmt.{itoa, format_nat}
use las.Os.{failed}
use las.Os.Memory.{memory, memory-IsLawful, Files}
use las.Web.Diagnostics.{DiagnosticsRequest, diagnostics_command, bounded_count}
use las.Web.Diagnostics.Laws.{IsProbe, diagnostics_command-IsProbe}
use las.Control.{Command}
use las.Builder.Options.{trim, is_space}
use las.Validate.{validate}
use las.Config.{Config}
use las.Validate.Sample.{sample_config}
use las.Validate.Run.{sample_Passes}
use las.Store.{unreadable}
use las.Store.Sample.{memory_disk, memory_disk-IsFaithful, sample_json, sample_json-RoundTrips}
use las.Web.Messages.{Options, Request, Platform}
use las.Web.Keeps.{RunsKeep}
use las.Web.Refines.{view-done, Fulfils, handle-Fulfils}
use las.Web.Runs.{
  IsAnswer, Reaches-get, start, Reaches, start, answered, IsConfigured, IsAnswer,
  Reaches-IsConfigured, Reaches-get,
}

abbrev request : String → String → String → Request
request method path body = record {
  method = method;
  path = path;
  content_type = "application/json";
  body = body;
}

abbrev no_url : String → Option (String × String)
no_url text = none

abbrev platform : Platform memory
platform = record {
  disk = memory_disk;
  json = sample_json;
  decode_diagnostics = λ text. failed "no request";
  parse_url = λ text. no_url text;
  order = λ keys. keys;
  runtime = record { goos = "linux"; goarch = "amd64" };
  now = λ s. "2026-01-01T00:00:00Z";
  killed = "signal: killed";
  serve_file = λ dir r s. record { headers = []; status = 200; reply = file_reply dir };
}

abbrev options : Options
options = record { config_path = "/etc/las/router.json"; web_dir = ""; listen = ""; apply = false }

abbrev no_files : Files
no_files path = none

-- The file of the configuration, and nothing else.
abbrev one_file : Files
one_file path = if str_eq path "/etc/las/router.json" then some "sample" else none

memory-RunsKeep : RunsKeep memory no_url "/etc/las/router.json"
memory-RunsKeep c h s = refl

handle-Fulfils_example :
    Fulfils memory platform options
      (request "PUT" "/api/config" "sample")
      no_files
      (handle memory platform options (request "PUT" "/api/config" "sample") no_files)
handle-Fulfils_example =
    handle-Fulfils memory platform options memory-IsLawful sample_json-RoundTrips memory-RunsKeep
      refl (request "PUT" "/api/config" "sample") no_files

one_file-IsConfigured : IsConfigured memory platform options one_file
one_file-IsConfigured = (sample_config, view-done sample_json "sample" refl, sample_Passes)

-- The configuration is put, and then a plan is asked for.
two_requests :
    Reaches memory platform options one_file
      (handle memory platform options
        (request "GET" "/api/plan" "")
        (handle memory platform options (request "PUT" "/api/config" "sample") one_file).0).0
two_requests =
    answered (answered start (request "PUT" "/api/config" "sample")) (request "GET" "/api/plan" "")

Reaches-IsConfigured_example :
    IsConfigured memory platform options
      (handle memory platform options
        (request "GET" "/api/plan" "")
        (handle memory platform options (request "PUT" "/api/config" "sample") one_file).0).0
Reaches-IsConfigured_example =
    Reaches-IsConfigured memory platform options memory-IsLawful sample_json-RoundTrips
      memory-RunsKeep refl two_requests one_file-IsConfigured

clash : ¬ (false ≡ true)
clash h = cc

path-not_empty : Options.config_path options ≢ ""
path-not_empty h = clash (ap (λ s. str_eq s "") h)

Reaches-get_example :
    let t = (handle memory platform options (request "PUT" "/api/config" "sample") one_file).0 in
    ((c : Config) × Passes (validate c)
      × IsAnswer memory platform options c
          (handle memory platform options (request "GET" "/api/config" "") t).1)
    ⊎ ((e : String) × (memory_disk.read "/etc/las/router.json" t ≡ unreadable e))
Reaches-get_example =
    Reaches-get memory platform options memory-IsLawful sample_json-RoundTrips
      memory_disk-IsFaithful memory-RunsKeep refl path-not_empty one_file-IsConfigured
      (answered start (request "PUT" "/api/config" "sample")) (request "GET" "/api/config" "") refl
      refl

abbrev ping_request : DiagnosticsRequest
ping_request = record { tool = "ping"; target = " 192.0.2.1 "; count = pos 5000 }

abbrev ping_command : Command
ping_command = record { program = "ping"; args = "-c" ∷ "10" ∷ "-W" ∷ "3" ∷ "192.0.2.1" ∷ [] }

ping : diagnostics_command no_url ping_request ≡ ok ping_command
unfolding diagnostics_command bounded_count itoa format_nat
ping = refl

diagnostics_command-IsProbe_example :
    (trim is_space " 192.0.2.1 " ≢ "") × IsProbe no_url (trim is_space " 192.0.2.1 ") ping_command
diagnostics_command-IsProbe_example = diagnostics_command-IsProbe no_url ping_request ping
