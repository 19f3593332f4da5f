-- ===== src/Cli/Laws.antt =====
-- What the command leaves behind, and what each of its endings says of the machine.
use las.Prelude.{String, true, false, List, ◌≡◌, ◌≢◌, ◌⊎◌}
use las.Errors.{ok}
use las.Os.{Os, Outcome, done, Spared}
use las.Control.{Plan}
use las.Config.{Config}
use las.Builder.{build_plan}
use las.Store.{Disk, Json, gives, IsFaithful}
use las.Store.Loads.{IsLoadable, IsInitialised}
use las.Cli.{Flags, Ending, created, is_valid, printed, serving, fatal}

module _ (os : Os) (disk : Disk os) (faithful : IsFaithful os disk) (json : Json)
    (plan_json : Plan → Outcome String) (order : List String → List String) (flags : Flags)
    (s : os.State) where
  abbrev Loads : Config → Type 0
  Loads c = IsLoadable os json disk flags.config_path c s

  -- What each ending says, of the machine before and behind it.
  unfoldable pub IsJustified : os.State × Ending → Type 0
  IsJustified (t, created path) =
      (flags.init_config ≡ true)
      × (path ≡ flags.config_path)
      × IsInitialised os disk faithful json flags.config_path s (t, gives tt)
  IsJustified (t, is_valid) = (t ≡ s) × (flags.validate ≡ true) × ((c : Config) × Loads c)
  IsJustified (t, printed text) =
      (t ≡ s)
      × (c : Config) × (plan : Plan) × Loads c
      × (build_plan order c ≡ ok plan)
      × (plan_json plan ≡ done text)
  IsJustified (t, serving options) =
      (t ≡ s) × (options.config_path ≡ flags.config_path) × (options.apply ≡ flags.apply)
  IsJustified (t, fatal f) =
      (os.content t flags.config_path ≡ os.content s flags.config_path)
      × ((flags.init_config ≡ true)
          ⊎ ((t ≡ s)
              × ((c : Config)
                  → Loads c
                  → (flags.validate ≡ false)
                    × ((plan : Plan) (text : String)
                        → build_plan order c ≡ ok plan
                        → plan_json plan ≢ done text))))

  -- Every file that was there is as it was, and the ending says what is so.
  abbrev pub IsSafe : os.State × Ending → Type 0
  IsSafe m = ((q : String) → Spared (os.content s q) (os.content m.0 q)) × IsJustified m
