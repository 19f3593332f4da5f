-- ===== src/Store.antt =====
-- internal/config/config.go: `Load`, `Save` and `Init`, which keep the configuration in a file.
pub mod Laws
pub mod Loads
pub mod Sample
mod Tests
use las.Prelude.{String, Bool, List, [], ◌∷◌, ◌<>◌, ◌≡◌, Option, none, some}
use las.Errors.{Error, str, Result, ok, err, Check}
use las.Fmt.{sprintf}
use las.Os.{Os, Outcome, done, failed, after}
use las.Config.{Config, default_config}
use las.Validate.{validate}

-- What a look at a path gives. Go tells the second from the third by `errors.Is(err,
-- os.ErrNotExist)`.
pub data Look (A : Type 0) : Type 0 where
  found : A → Look A
  absent : String → Look A
  unreadable : String → Look A

-- `os.ReadFile` and `os.Stat`, with the texts of their errors.
pub record Disk (os : Os) : Type 0 where
  pub read : String → os.State → Look String
  pub stat : String → os.State → Look (Unit {0})

-- Documented behaviour of the two: they tell what is at the path, or fail in another way than by its
-- absence.
pub record IsFaithful (os : Os) (disk : Disk os) : Type 0 where
  pub read-found :
      (path : String) (s : os.State) {text : String}
      → disk.read path s ≡ found text
      → os.content s path ≡ some text
  pub read-absent :
      (path : String) (s : os.State) {e : String}
      → disk.read path s ≡ absent e
      → os.content s path ≡ none
  pub stat-absent :
      (path : String) (s : os.State) {e : String}
      → disk.stat path s ≡ absent e
      → os.content s path ≡ none

-- encoding/json for the configuration: `json.MarshalIndent`, `json.Unmarshal` into a new value, and
-- `json.NewDecoder(…).Decode`, which reads the first value of a text.
pub record Json : Type 0 where
  pub encode : Config → Outcome String
  pub decode : String → Outcome Config
  pub decode_first : String → Outcome Config

-- The encoding of the configuration is decoded as it again, with a line end behind it.
abbrev pub ReadsBack : Json → Config → Type 0
ReadsBack json c = (text : String) → json.encode c ≡ done text → json.decode (text <> "\n") ≡ done c

-- That holds of every configuration that comes out of a text.
abbrev pub RoundTrips : Json → Type 0
RoundTrips json = (body : String) (c : Config) → json.decode_first body ≡ done c → ReadsBack json c

-- An `error`: the one of a missing file, one with a text, or one of the checks.
pub data Failure : Type 0 where
  not_found : String → Failure
  system : String → Failure
  invalid : Error → Failure

-- A value or an error.
pub data Attempt (A : Type 0) : Type 0 where
  gives : A → Attempt A
  fails : Failure → Attempt A

-- `return cfg, cfg.Validate()`
unfoldable checked_by : Config → Check → Attempt Config
checked_by c (ok _) = gives c
checked_by c (err e) = fails (invalid e)

unfoldable pub checked : Config → Attempt Config
unfolding checked_by
checked c = checked_by c (validate c)

abbrev wrapped : String → String → String
wrapped format e = sprintf format (str e ∷ [])

unfoldable decoded : Outcome Config → Attempt Config
decoded (failed e) = fails (system (wrapped "decode config: %w" e))
decoded (done c) = checked c

unfoldable loaded : Json → Look String → Attempt Config
unfolding decoded
loaded json (absent e) = fails (not_found e)
loaded json (unreadable e) = fails (system e)
loaded json (found text) = decoded (json.decode text)

module _ (os : Os) where
  -- `Save` from `tmpName := tmp.Name()` on. The deferred removal is made on every way out.
  unfoldable pub fill : String → String → String → os.State → os.State × Outcome (Unit {0})
  fill name path text s =
      after (os.write name text s)
        (λ e s.
          ((os.remove name (os.close name s).0).0, failed (wrapped "write temp config: %w" e)))
        λ _ s.
          after (os.chmod name "600" s)
            (λ e s.
              ((os.remove name (os.close name s).0).0, failed (wrapped "chmod temp config: %w" e)))
            λ _ s.
              after (os.close name s)
                (λ e s. ((os.remove name s).0, failed (wrapped "close temp config: %w" e)))
                λ _ s.
                  after (os.rename name path s)
                    (λ e s. ((os.remove name s).0, failed (wrapped "replace config: %w" e)))
                    λ _ s. ((os.remove name s).0, done tt)

  -- `Save` behind the encoding.
  unfoldable pub replace : String → String → os.State → os.State × Outcome (Unit {0})
  replace path text s =
      after (os.mkdir_all path s) (λ e s. (s, failed (wrapped "create config dir: %w" e)))
        λ _ s.
          after (os.create_temp path s) (λ e s. (s, failed (wrapped "create temp config: %w" e)))
            λ name s. fill name path text s

  -- The result of `Save` from the one of its second part.
  unfoldable pub attempt : os.State × Outcome (Unit {0}) → os.State × Attempt (Unit {0})
  attempt (s, done _) = (s, gives tt)
  attempt (s, failed e) = (s, fails (system e))

  unfoldable pub save_encoded : String → Outcome String → os.State → os.State × Attempt (Unit {0})
  save_encoded path (failed e) s = (s, fails (system (wrapped "encode config: %w" e)))
  save_encoded path (done text) s = attempt (replace path (text <> "\n") s)

  module _ (json : Json) where
    unfoldable pub save_checked : String → Config → Check → os.State → os.State × Attempt (Unit {0})
    save_checked path c (err e) s = (s, fails (invalid e))
    save_checked path c (ok _) s = save_encoded path (json.encode c) s

    unfoldable pub save : String → Config → os.State → os.State × Attempt (Unit {0})
    save path c s = save_checked path c (validate c) s

    module _ (disk : Disk os) where
      unfoldable pub load : String → os.State → Attempt Config
      unfolding loaded
      load path s = loaded json (disk.read path s)

      unfoldable pub init_at : String → Look (Unit {0}) → os.State → os.State × Attempt (Unit {0})
      init_at path (found _) s = (s, fails (system (wrapped "%s already exists" path)))
      init_at path (unreadable e) s = (s, fails (system e))
      init_at path (absent e) s = save path default_config s

      unfoldable pub init : String → os.State → os.State × Attempt (Unit {0})
      init path s = init_at path (disk.stat path s) s
