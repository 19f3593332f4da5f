-- ===== src/Web/Keeps.antt =====
-- Which requests leave the file of the configuration alone.
use las.Errors.{Result, ok, err}
use las.Store.{Attempt, Failure, gives, fails}
use las.Web.{
  and_then, planned, diagnostics_from_request, report_status, behind, handle_plan, handle_path,
  handle_apply, apply_plan, handle_default_config, handle_status, run_diagnostics,
  handle_diagnostics, body_of,
}
use las.Web.Status.{
  probes, probed_services, service_probe, command_version, probe_all, probe_status,
}
use las.Web.Diagnostics.Laws.{IsProbe, diagnostics_command-IsProbe}
use las.Builder.Options.{trim, is_space}
use las.Control.{Command, Plan}
use las.Web.Diagnostics.{diagnostics_command}
use las.Prelude.{
  Any, All, inl, inr, ◌≢◌, map, Option, String, not, ap, false, ◌∙◌, ℕ, String, Bool, true, false,
  List, [], ◌∷◌, str_eq, ◌≡◌, refl, ◌∙◌, if◌then◌else◌,
}
use las.Os.{Os}
use las.Control.Executor.{execute}
use las.Control.Executor.Laws.{execute-dry}
use las.Web.Messages.{Options, Platform, Request, Response}

-- What holds on both ways of a test.
pub if_rule {ℓ κ} :
    {A : Type ℓ} (P : A → Type κ) (b : Bool) (x y : A)
    → (b ≡ true → P x)
    → (b ≡ false → P y)
    → P (if b then x else y)
if_rule P true x y h k = h refl
if_rule P false x y h k = k refl

module _ (os : Os) (path : String) where
  -- The file at the path is the same afterwards.
  abbrev pub Kept : os.State → os.State → Type 0
  Kept s t = os.content t path ≡ os.content s path

-- The commands that the server starts: the probes of `ProbeStatus`, and those of
-- `diagnosticsCommand`.
pub data Starts (parse_url : String → Option (String × String)) : Command → Type 0 where
  version :
      (probe : String × String × List String)
      → Any (λ p. p ≡ probe) probes
      → Starts parse_url (record { program = probe.1; args = probe.2 })
  service :
      (name : String)
      → Any (λ n. n ≡ name) probed_services
      → Starts parse_url (record { program = "systemctl"; args = "is-active" ∷ name ∷ [] })
  diagnosed :
      {c : Command} (target : String)
      → target ≢ ""
      → IsProbe parse_url target c
      → Starts parse_url c

-- The commands that the server starts only look: they leave the file at the path alone.
abbrev pub RunsKeep : (os : Os) → (String → Option (String × String)) → String → Type 0
RunsKeep os parse_url path =
    (c : Command)
    → Starts parse_url c
    → (s : os.State) → Kept os path s (os.run c.program c.args s).0

-- The run of a probe of the list leaves the file at the path alone.
abbrev ProbeKeeps : (os : Os) → String → String × String × List String → Type 0
ProbeKeeps os path probe = (s : os.State) → Kept os path s (os.run probe.1 probe.2 s).0

probe_all-Kept :
    (os : Os) (path : String) (list : List (String × String × List String)) (s : os.State)
    → All (ProbeKeeps os path) list
    → Kept os path s (probe_all os list s).0
unfolding probe_all command_version
probe_all-Kept os path [] s keep = refl
probe_all-Kept os path ((name, program, args) ∷ more) s (first, keep) =
    probe_all-Kept os path more (os.run program args s).0 keep ∙ first s

All-of :
    {A : Type 0} (P : A → Type 0) (xs : List A) → ((x : A) → Any (λ y. y ≡ x) xs → P x) → All P xs
All-of P [] f = tt
All-of P (x ∷ xs) f = (f x (inl refl), All-of P xs (λ y h. f y (inr h)))

All-services :
    (os : Os) (path : String) (names : List String)
    → All (λ name. ProbeKeeps os path (service_probe name)) names
    → All (ProbeKeeps os path) (map service_probe names)
All-services os path [] h = tt
All-services os path (name ∷ names) (p, h) = (p, All-services os path names h)

if-All :
    (os : Os) (path : String) (b : Bool) (list : List (String × String × List String))
    → All (ProbeKeeps os path) list
    → All (ProbeKeeps os path) (if b then list else [])
if-All os path true list h = h
if-All os path false list h = tt

-- The state behind a handler has the same file.
pub data Keeps (os : Os) (path : String) (s : os.State) : os.State × Response → Type 0 where
  keeps : {t : os.State} {response : Response} → Kept os path s t → Keeps os path s (t, response)

if-Keeps :
    (os : Os) (path : String) (s : os.State) (b : Bool) (m n : os.State × Response)
    → Keeps os path s m
    → Keeps os path s n
    → Keeps os path s (if b then m else n)
if-Keeps os path s true m n h k = h
if-Keeps os path s false m n h k = k

else-Keeps :
    (os : Os) (path : String) (s : os.State) (b : Bool) (m n : os.State × Response)
    → b ≡ false
    → Keeps os path s n
    → Keeps os path s (if b then m else n)
else-Keeps os path s b m n h k = rw h k

behind-Keeps :
    (os : Os) (path : String) (s : os.State) {A : Type 0} (status : ℕ) (a : Attempt A)
    (f : A → os.State → os.State × Response)
    → ((x : A) → a ≡ gives x → Keeps os path s (f x s))
    → Keeps os path s (behind status a f s)
unfolding behind
behind-Keeps os path s status (fails e) f h = keeps refl
behind-Keeps os path s status (gives x) f h = h x refl

fails-clash : {A : Type 0} {e : Failure} {a : A} → fails e ≡ gives a → ⊥
fails-clash h = cc

and_then-gives :
    {A B : Type 0} (a : Attempt A) (f : A → Attempt B) {b : B}
    → and_then a f ≡ gives b
    → (x : A) × (a ≡ gives x) × (f x ≡ gives b)
unfolding and_then
and_then-gives (gives x) f h = (x, refl, h)
and_then-gives (fails e) f h = absurd (fails-clash h)

planned-gives : {A : Type 0} (r : Result A) {a : A} → planned r ≡ gives a → r ≡ ok a
unfolding planned
planned-gives (ok a) h = cc
planned-gives (err e) h = absurd (fails-clash h)

same-Keeps :
    (os : Os) (path : String) (s : os.State) (response : Response) → Keeps os path s (s, response)
same-Keeps os path s response = keeps refl

module _ (os : Os) (platform : Platform os) (options : Options)
    (keep : RunsKeep os platform.parse_url options.config_path) where
  report_status-Keeps :
      (s : os.State) → Keeps os options.config_path s (report_status os platform options s)
  unfolding report_status probe_status
  report_status-Keeps s =
      let path = options.config_path in
      let versions = All-of (ProbeKeeps os path) probes (λ probe h. keep _ (version probe h)) in
      let services =
        All-of (λ name. ProbeKeeps os path (service_probe name)) probed_services
          (λ name h. keep _ (service name h)) in
      keeps (
        probe_all-Kept os path
          (if str_eq platform.runtime.goos "linux" then map service_probe probed_services else [])
          (probe_all os probes s).0
          (if-All os path (str_eq platform.runtime.goos "linux") (map service_probe probed_services)
            (All-services os path probed_services services))
        ∙ probe_all-Kept os path probes s versions)

  handle_status-Keeps :
      (r : Request) (s : os.State)
      → Keeps os options.config_path s (handle_status os platform options r s)
  unfolding handle_status
  handle_status-Keeps r s = search (if-Keeps, same-Keeps, report_status-Keeps) depth 20

  run_diagnostics-Keeps :
      (r : Request) (s : os.State)
      → Keeps os options.config_path s (
          behind 400
            (diagnostics_from_request os platform options r)
            (run_diagnostics os platform options)
            s)
  unfolding run_diagnostics diagnostics_from_request
  run_diagnostics-Keeps r s = behind-Keeps os options.config_path s 400 _ _ λ c h.
      let (req, _, k) =
        and_then-gives (body_of "diagnostics request" (platform.decode_diagnostics r.body))
          (λ req. planned (diagnostics_command platform.parse_url req)) h in
      let (target, probe) =
        diagnostics_command-IsProbe platform.parse_url req (planned-gives _ k) in
      keeps (keep c (diagnosed (trim is_space req.target) target probe) s)

  handle_diagnostics-Keeps :
      (r : Request) (s : os.State)
      → Keeps os options.config_path s (handle_diagnostics os platform options r s)
  unfolding handle_diagnostics
  handle_diagnostics-Keeps r s = search (if-Keeps, same-Keeps, run_diagnostics-Keeps) depth 20

  handle_plan-Keeps :
      (r : Request) (s : os.State)
      → Keeps os options.config_path s (handle_plan os platform options r s)
  unfolding handle_plan
  handle_plan-Keeps r s = search (if-Keeps, same-Keeps) depth 20

  handle_default_config-Keeps :
      (r : Request) (s : os.State)
      → Keeps os options.config_path s (handle_default_config os platform options r s)
  unfolding handle_default_config
  handle_default_config-Keeps r s = search (if-Keeps, same-Keeps) depth 20

  apply_plan-Keeps :
      options.apply ≡ false
      → (plan : Plan) (s : os.State)
      → Keeps os options.config_path s (apply_plan os platform options plan s)
  unfolding apply_plan
  apply_plan-Keeps off plan s = keeps (
      ap (λ t. os.content t options.config_path)
        (ap (λ b. (execute os (not b) plan s).0) off ∙ execute-dry os plan s))

  handle_apply-Keeps :
      options.apply ≡ false
      → (r : Request) (s : os.State)
      → Keeps os options.config_path s (handle_apply os platform options r s)
  unfolding handle_apply
  handle_apply-Keeps off r s =
      search (if-Keeps, same-Keeps, behind-Keeps, apply_plan-Keeps off) depth 20

  -- Every handler but the one of the configuration.
  pub handle_path-Keeps :
      options.apply ≡ false
      → (r : Request) (s : os.State) → str_eq r.path "/api/config" ≡ false
      → Keeps os options.config_path s (handle_path os platform options r s)
  unfolding handle_path
  handle_path-Keeps off r s other =
      search
        (
          else-Keeps,
          if-Keeps,
          same-Keeps,
          handle_plan-Keeps,
          handle_apply-Keeps off,
          handle_status-Keeps,
          handle_diagnostics-Keeps,
          handle_default_config-Keeps,
        )
        depth 20
