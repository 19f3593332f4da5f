-- ===== src/Web/Refines.antt =====
-- The server as a cell that holds one accepted configuration.
use mathlib.Core.Path.{subst}
use las.Prelude.{
  String, Bool, true, false, Bool-cases, Option, none, some, ◌++◌, str_eq, eq_iff, ◌≡◌, refl, ap,
  sym, ◌∙◌, inl, inr, arith,
}
use las.Errors.{Passes}
use las.Os.{Os, IsLawful, Outcome, done, failed}
use las.Config.{Config}
use las.Validate.{validate}
use las.Store.{Json, ReadsBack, RoundTrips, Attempt, gives, fails}
use las.Store.Laws.{Holds, IsSaved, save-IsSaved}
use las.Web.Messages.{Options, Platform, Request, Response, secure_headers, respond, saved_reply}
use las.Web.{behind, body_of, put_config, handle_config, handle_path, handle, saved}
use las.Web.Keeps.{
  RunsKeep, handle_path-Keeps, if_rule, handle_path-Keeps, RunsKeep, Kept, RunsKeep, Keeps, keeps,
  handle_path-Keeps,
}

-- The configuration that a text stands for.
view_of : Outcome Config → Option Config
view_of (done c) = some c
view_of (failed e) = none

unfoldable pub view : Json → Option String → Option Config
unfolding view_of
view json none = none
view json (some text) = view_of (json.decode text)

none-clash : {A : Type 0} {a : A} → none ≡ some a → ⊥
none-clash h = cc

view_of-some : (o : Outcome Config) {c : Config} → view_of o ≡ some c → o ≡ done c
unfolding view_of
view_of-some (done d) h = cc
view_of-some (failed e) h = absurd (none-clash h)

pub view-done :
    (json : Json) (text : String) {c : Config}
    → json.decode text ≡ done c
    → view json (some text) ≡ some c
unfolding view view_of
view-done json text h = rw h

pub view-some :
    (json : Json) (o : Option String) {c : Config}
    → view json o ≡ some c
    → (text : String) × (o ≡ some text) × (json.decode text ≡ done c)
unfolding view
view-some json none h = absurd (none-clash h)
view-some json (some text) h = (text, refl, view_of-some (json.decode text) h)

-- `PUT /api/config`
abbrev pub IsPut : Request → Type 0
IsPut r = (r.method ≡ "PUT") × (r.path ≡ "/api/config")

-- What the server promises: the configuration is replaced by a request to do so that is answered by
-- the status 200, and then by the one of the request, which is accepted by the checks; no other
-- request and no other answer changes it.
pub data Serves (json : Json) (before : Option Config) (r : Request) (response : Response)
    : Option Config → Type 0 where
  leaves : ¬ (IsPut r × (response.status ≡ 200)) → Serves json before r response before
  puts :
      (c : Config)
      → IsPut r
      → response.status ≡ 200
      → json.decode_first r.body ≡ done c
      → Passes (validate c)
      → Serves json before r response (some c)

clash : {b : Bool} → b ≡ true → b ≡ false → ⊥
clash h k = cc

get-not-IsPut : (r : Request) → str_eq r.method "GET" ≡ true → ¬ IsPut r
get-not-IsPut r h p = clash h (ap (λ m. str_eq m "GET") p.0)

sent-Serves :
    {json : Json} {before after : Option Config} {r : Request} {response : Response}
    → Serves json before r response after
    → Serves json before r (record response { headers = secure_headers ++ response.headers }) after
sent-Serves (leaves h) = leaves h
sent-Serves (puts c p h d q) = puts c p h d q

module _ (os : Os) (platform : Platform os) (options : Options) where
  abbrev json_of : Json
  json_of = platform.json

  -- The configuration that the machine keeps.
  abbrev pub kept_config : os.State → Option Config
  kept_config s = view platform.json (os.content s options.config_path)

  -- The promise, of a state and what a handler makes of it.
  pub data Fulfils (r : Request) (s : os.State) : os.State × Response → Type 0 where
    fulfils :
        {t : os.State} {response : Response}
        → Serves platform.json (kept_config s) r response (kept_config t)
        → Fulfils r s (t, response)

  Kept-Fulfils :
      (r : Request) (s t : os.State) (response : Response)
      → Kept os options.config_path s t
      → ¬ (IsPut r × (response.status ≡ 200))
      → Fulfils r s (t, response)
  Kept-Fulfils r s t response h unput = fulfils (
      subst (λ o. Serves platform.json (kept_config s) r response (view platform.json o)) (sym h)
        (leaves unput))

  Keeps-Fulfils :
      (r : Request) (s : os.State) (m : os.State × Response)
      → ¬ IsPut r
      → Keeps os options.config_path s m
      → Fulfils r s m
  Keeps-Fulfils r s m unput (keeps h) = Kept-Fulfils r s _ _ h (λ p. unput p.0)

  saved-Fulfils :
      (r : Request) (s : os.State) (c : Config)
      → ReadsBack platform.json c
      → (m : os.State × Attempt (Unit {0})) → IsPut r
      → platform.json.decode_first r.body ≡ done c
      → IsSaved os platform.json options.config_path c s m
      → Fulfils r s (saved m)
  unfolding saved IsSaved Holds
  saved-Fulfils r s c back (t, fails e) is_put d (h, others) =
      Kept-Fulfils r s t _ h (λ p. omega (arith, p.1))
  saved-Fulfils r s c back (t, gives _) is_put d ((passes, (text, e, h)), others) = fulfils (
      subst (λ o. Serves platform.json (kept_config s) r (respond 200 saved_reply) o)
        (sym (ap (view platform.json) h ∙ view-done platform.json _ (back text e)))
        (puts c is_put refl d passes))

  put_config-Fulfils :
      IsLawful os
      → (r : Request) (s : os.State) (c : Config) → ReadsBack platform.json c
      → IsPut r
      → platform.json.decode_first r.body ≡ done c
      → Fulfils r s (put_config os platform options c s)
  unfolding put_config
  put_config-Fulfils law r s c back is_put d =
      saved-Fulfils r s c back _ is_put d
        (save-IsSaved os law platform.json options.config_path c s)

  put_body-Fulfils :
      IsLawful os
      → RoundTrips platform.json
      → (r : Request) (s : os.State) (o : Outcome Config) → IsPut r
      → platform.json.decode_first r.body ≡ o
      → Fulfils r s (behind 400 (body_of "config" o) (put_config os platform options) s)
  unfolding behind body_of
  put_body-Fulfils law back r s (done c) is_put d =
      put_config-Fulfils law r s c (back r.body c d) is_put d
  put_body-Fulfils law back r s (failed e) is_put d =
      Kept-Fulfils r s s _ refl (λ p. omega (arith, p.1))

  handle_config-Fulfils :
      IsLawful os
      → RoundTrips platform.json
      → (r : Request) (s : os.State) → r.path ≡ "/api/config"
      → Fulfils r s (handle_config os platform options r s)
  unfolding handle_config
  handle_config-Fulfils law back r s at_config =
      if_rule (Fulfils r s) (str_eq r.method "GET") _ _
        (λ get. Kept-Fulfils r s s _ refl (λ p. get-not-IsPut r get p.0))
        λ _.
          if_rule (Fulfils r s) (str_eq r.method "PUT") _ _
            (λ put. put_body-Fulfils law back r s _ ((eq_iff r.method "PUT").0 put, at_config) refl)
            (λ _. Kept-Fulfils r s s _ refl (λ p. omega (arith, p.1)))

  config_path-Fulfils :
      (r : Request) (s : os.State)
      → str_eq r.path "/api/config" ≡ true
      → Fulfils r s (handle_config os platform options r s)
      → Fulfils r s (handle_path os platform options r s)
  unfolding handle_path
  config_path-Fulfils r s h f = rw h f

  handle_path-Fulfils :
      IsLawful os
      → RoundTrips platform.json
      → RunsKeep os platform.parse_url options.config_path
      → options.apply ≡ false
      → (r : Request) (s : os.State) → Fulfils r s (handle_path os platform options r s)
  handle_path-Fulfils law back keep off r s = elim (Bool-cases (str_eq r.path "/api/config")) [
    | inl at_config ↦
        config_path-Fulfils r s at_config
          (handle_config-Fulfils law back r s ((eq_iff r.path "/api/config").0 at_config))
    | inr other ↦
        Keeps-Fulfils r s _ (λ p. clash ((eq_iff r.path "/api/config").1 p.1) other)
          (handle_path-Keeps os platform options keep off r s other)
  ]

  sent-Fulfils :
      (r : Request) (s : os.State) (m : os.State × Response)
      → Fulfils r s m
      → Fulfils r s (m.0, record m.1 { headers = secure_headers ++ m.1.headers })
  sent-Fulfils r s m (fulfils h) = fulfils (sent-Serves h)

  -- If the file calls behave as documented, a configuration that comes out of a text is read back
  -- when it is encoded, the commands that the server starts, status probes and diagnostics, leave
  -- the file of the configuration alone, and plans are not applied, then the server keeps its
  -- promise: the configuration changes only by a `PUT` of an accepted one that is answered by 200.
  pub handle-Fulfils :
      IsLawful os
      → RoundTrips platform.json
      → RunsKeep os platform.parse_url options.config_path
      → options.apply ≡ false
      → (r : Request) (s : os.State) → Fulfils r s (handle os platform options r s)
  unfolding handle
  handle-Fulfils law back keep off r s =
      sent-Fulfils r s _ (handle_path-Fulfils law back keep off r s)
