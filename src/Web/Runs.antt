-- ===== src/Web/Runs.antt =====
-- What holds after any sequence of requests.
use las.Prelude.{
  arith, eq_iff, refl, str_eq, String, false, ◌≢◌, ◌⊎◌, inl, inr, String, false, Option, some,
  str_eq, eq_iff, ◌≡◌, ◌≢◌, refl, ◌⊎◌, inl, inr,
}
use las.Errors.{Passes}
use las.Web.{load_config_or_default, or_default, handle_config, handle, answer, handle_path}
use las.Store.{IsFaithful, gives, unreadable, RoundTrips, load}
use las.Store.Loads.{read-some, load_iff}
use las.Web.Messages.{config_reply, Options, Platform, Request, Response}
use las.Os.{Os, IsLawful}
use las.Config.{Config}
use las.Validate.{validate}
use las.Web.Keeps.{RunsKeep}
use las.Web.Refines.{view-some, kept_config, Serves, leaves, puts, Fulfils, fulfils, handle-Fulfils}

str_ne : (s : String) → s ≢ "" → str_eq s "" ≡ false
str_ne s h = ground (arith, eq_iff s "", h)

module _ (os : Os) (platform : Platform os) (options : Options) where
  -- The states that the server can get to by answering requests.
  pub data Reaches (s : os.State) : os.State → Type 0 where
    start : Reaches s s
    answered :
        {t : os.State} → Reaches s t → (r : Request) → Reaches s (handle os platform options r t).0

  -- The machine keeps a configuration, and the checks accept it.
  abbrev pub IsConfigured : os.State → Type 0
  IsConfigured s = (c : Config) × (kept_config os platform options s ≡ some c) × Passes (validate c)

  Serves-IsConfigured :
      {before after : Option Config} {r : Request} {response : Response}
      → Serves platform.json before r response after
      → (c : Config) × (before ≡ some c) × Passes (validate c)
      → (c : Config) × (after ≡ some c) × Passes (validate c)
  Serves-IsConfigured (leaves _) h = h
  Serves-IsConfigured (puts c _ _ _ passes) h = (c, refl, passes)

  Fulfils-IsConfigured :
      (r : Request) (s : os.State) (m : os.State × Response)
      → Fulfils os platform options r s m
      → IsConfigured s
      → IsConfigured m.0
  Fulfils-IsConfigured r s m (fulfils h) k = Serves-IsConfigured h k

  -- If the file calls behave as documented, a configuration that comes out of a text is read back
  -- when it is encoded, the commands that the server starts, status probes and diagnostics, leave
  -- the file of the configuration alone, and plans are not applied, then a machine that keeps an
  -- accepted configuration keeps one after any sequence of requests.
  pub Reaches-IsConfigured :
      IsLawful os
      → RoundTrips platform.json
      → RunsKeep os platform.parse_url options.config_path
      → options.apply ≡ false
      → {s t : os.State} → Reaches s t
      → IsConfigured s
      → IsConfigured t
  Reaches-IsConfigured law back keep off start h = h
  Reaches-IsConfigured law back keep off (answered {t} run r) h =
      Fulfils-IsConfigured r t _ (handle-Fulfils os platform options law back keep off r t)
        (Reaches-IsConfigured law back keep off run h)

  load-gives :
      (t : os.State) (c : Config)
      → str_eq options.config_path "" ≡ false
      → load os platform.json platform.disk options.config_path t ≡ gives c
      → load_config_or_default os platform options t ≡ gives c
  unfolding load_config_or_default or_default
  load-gives t c named h = rw (named, h)

  -- What `loadConfigOrDefault` gives on a machine that keeps an accepted configuration.
  load-IsConfigured :
      IsFaithful os platform.disk
      → options.config_path ≢ ""
      → (t : os.State) (c : Config) → kept_config os platform options t ≡ some c
      → Passes (validate c)
      → (load_config_or_default os platform options t ≡ gives c)
        ⊎ ((e : String) × (platform.disk.read options.config_path t ≡ unreadable e))
  unfolding load_config_or_default
  load-IsConfigured faithful named t c kept passes =
      let (text, holds, decoded) = view-some platform.json _ kept in
      let path = options.config_path in
      elim (read-some os platform.disk faithful platform.json path t holds) [
        | inl r ↦ inl (
            load-gives t c (str_ne _ named)
              ((load_iff os platform.json platform.disk path c t).1 (text, r, decoded, passes)))
        | inr r ↦ inr r
      ]

  -- The answer to `GET /api/config`.
  abbrev pub IsAnswer : Config → Response → Type 0
  IsAnswer c response = (response.status ≡ 200) × (response.reply ≡ config_reply c)

  get-IsAnswer :
      (r : Request) (t : os.State) (c : Config)
      → r.method ≡ "GET"
      → r.path ≡ "/api/config"
      → load_config_or_default os platform options t ≡ gives c
      → IsAnswer c (handle os platform options r t).1
  unfolding handle handle_path handle_config answer
  get-IsAnswer r t c get at_config h = rw (at_config, get, h) (refl, refl)

  -- If the file calls behave as documented, a configuration that comes out of a text is read back
  -- when it is encoded, the commands that the server starts, status probes and diagnostics, leave
  -- the file of the configuration alone, plans are not applied and there is a path of the
  -- configuration, then on a machine that keeps an accepted configuration, after any sequence of
  -- requests, `GET /api/config` is answered by the status 200 and an accepted configuration, or the
  -- file cannot be read.
  pub Reaches-get :
      IsLawful os
      → RoundTrips platform.json
      → IsFaithful os platform.disk
      → RunsKeep os platform.parse_url options.config_path
      → options.apply ≡ false
      → options.config_path ≢ ""
      → {s t : os.State} → IsConfigured s
      → Reaches s t
      → (r : Request) → r.method ≡ "GET"
      → r.path ≡ "/api/config"
      → ((c : Config) × Passes (validate c) × IsAnswer c (handle os platform options r t).1)
        ⊎ ((e : String) × (platform.disk.read options.config_path t ≡ unreadable e))
  Reaches-get law back faithful keep off named {s} {t} configured run r get at_config =
      let (c, kept, passes) = Reaches-IsConfigured law back keep off run configured in
      elim (load-IsConfigured faithful named t c kept passes) [
        | inl h ↦ inl (c, passes, get-IsAnswer r t c get at_config h)
        | inr e ↦ inr e
      ]
