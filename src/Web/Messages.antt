-- ===== src/Web/Messages.antt =====
-- internal/web/server.go: requests, responses, and what the server gets from Go's libraries.
use las.Prelude.{ℕ, String, Bool, Option, List, [], ◌∷◌}
use las.Os.{Os, Outcome}
use las.Control.{Command, Plan, StepResult}
use las.Config.{Config}
use las.Store.{Disk, Json, Failure, system}
use las.Web.Status.{Runtime, HostStatus}
use las.Web.Diagnostics.{DiagnosticsRequest}

-- `Options`
pub record Options : Type 0 where
  pub config_path : String
  pub web_dir : String
  pub listen : String
  pub apply : Bool

-- What the server listens on: an address, and the files of its certificate and key if it has them.
pub record Listener : Type 0 where
  pub address : String
  pub tls_files : Option (String × String)

-- What a handler reads of a request. A request that a server gets always has a body, which may be
-- empty.
pub record Request : Type 0 where
  pub method : String
  pub path : String
  pub content_type : String
  pub body : String

-- The value that is encoded as JSON.
pub data Reply : Type 0 where
  config_reply : Config → Reply
  saved_reply : Reply
  plan_reply : Plan → Reply
  apply_reply : Bool → Bool → List StepResult → Option String → Reply
  status_reply : HostStatus → Reply
  diagnostics_reply : Command → String → Option String → Reply
  error_reply : Failure → Reply
  file_reply : String → Reply

-- `writeJSON(w, status, value)`
pub record Response : Type 0 where
  pub headers : List (String × String)
  pub status : ℕ
  pub reply : Reply

-- What the server gets from Go's libraries: the two readers of bodies, `url.Parse`, the clock, the
-- order of the keys of a map, the text of the error of a killed command, and the file server.
pub record Platform (os : Os) : Type 0 where
  pub disk : Disk os
  pub json : Json
  pub decode_diagnostics : String → Outcome DiagnosticsRequest
  pub parse_url : String → Option (String × String)
  pub order : List String → List String
  pub runtime : Runtime
  pub now : os.State → String
  pub killed : String
  pub serve_file : String → Request → os.State → Response

abbrev pub respond : ℕ → Reply → Response
respond status reply = record {
  headers = ("Content-Type", "application/json") ∷ [];
  status = status;
  reply = reply;
}

-- `secureHeaders`
abbrev pub secure_headers : List (String × String)
secure_headers =
    ("X-Content-Type-Options", "nosniff")
    ∷ ("X-Frame-Options", "DENY")
    ∷ ("Referrer-Policy", "no-referrer")
    ∷ []

-- `writeError(w, status, err)`
abbrev pub write_error : ℕ → Failure → Response
write_error status f = respond status (error_reply f)

abbrev pub method_not_allowed : Response
method_not_allowed = write_error 405 (system "method not allowed")
