-- ===== src/Store/Laws.antt =====
-- What the file of the configuration holds after `Save` and `Init`, and what `Load` accepts.
use las.Prelude.{String, ◌≡◌, refl, Option, some, ◌<>◌, ◌≢◌, inl}
use las.Os.{Spared, IsLawful, after-done, Os, Outcome, done, failed, after}
use las.Control.Files.{file_mode, fill_and_rename, write_file}
use las.Errors.{Check, ok, err, Passes}
use las.Config.{Config}
use las.Validate.{validate}
use las.Control.Files.Atomic.{IsAtomic, write_file-IsAtomic}
use las.Store.{
  Json, Attempt, gives, fails, attempt, save_encoded, save_checked, save, fill, replace,
}

-- The same state, and success on both sides or on neither.
data Alike {S : Type 0} : S × Outcome (Unit {0}) → S × Outcome (Unit {0}) → Type 0 where
  both_done : (s : S) → Alike (s, done tt) (s, done tt)
  both_failed : (s : S) (e e' : String) → Alike (s, failed e) (s, failed e')

Alike-IsAtomic :
    (os : Os) (path text : String) (s : os.State) {m n : os.State × Outcome (Unit {0})}
    → Alike m n
    → IsAtomic os path text s m
    → IsAtomic os path text s n
Alike-IsAtomic os path text s (both_done t) h = h
Alike-IsAtomic os path text s (both_failed t e e') h = h

-- Two functions behind the same call.
after-Alike :
    {S A : Type 0} (m : S × Outcome A) (f f' : String → S → S × Outcome (Unit {0}))
    (g g' : A → S → S × Outcome (Unit {0}))
    → ((e : String) (s : S) → Alike (f e s) (f' e s))
    → ((a : A) (s : S) → Alike (g a s) (g' a s))
    → Alike (after m f g) (after m f' g')
unfolding after
after-Alike (s, done a) f f' g g' h k = k a s
after-Alike (s, failed e) f f' g g' h k = h e s

fill-Alike :
    (os : Os) (name path text : String) (s : os.State)
    → Alike (fill_and_rename os name path "600" text s) (fill os name path text s)
unfolding fill fill_and_rename
fill-Alike os name path text s =
    after-Alike _ _ _ _ _ (λ e s. both_failed _ _ _)
      λ _ s.
        after-Alike _ _ _ _ _ (λ e s. both_failed _ _ _)
          λ _ s.
            after-Alike _ _ _ _ _ (λ e s. both_failed _ _ _)
              λ _ s. after-Alike _ _ _ _ _ (λ e s. both_failed _ _ _) λ _ s. both_done _

-- The mode that `Save` sets.
mode_lem : file_mode "0600" ≡ done "600"
unfolding file_mode las.Fmt.format_nat
mode_lem = refl

replace-Alike :
    (os : Os) (path text : String) (s : os.State)
    → Alike (write_file os path "0600" text s) (replace os path text s)
unfolding replace write_file
replace-Alike os path text s =
    after-done (λ m. Alike m (replace os path text s)) _ _ _ "600" mode_lem
      (after-Alike _ _ _ _ _ (λ e s. both_failed s _ _)
        λ _ s.
          after-Alike _ _ _ _ _ (λ e s. both_failed s _ _) λ name s. fill-Alike os name path text s)

replace-IsAtomic :
    (os : Os)
    → IsLawful os
    → (path text : String) (s : os.State) → IsAtomic os path text s (replace os path text s)
replace-IsAtomic os law path text s =
    Alike-IsAtomic os path text s (replace-Alike os path text s)
      (write_file-IsAtomic os law path "0600" text s)

-- The configuration's file afterwards, by the result.
unfoldable pub Holds : Json → Config → Attempt (Unit {0}) → Option String → Option String → Type 0
Holds json c (gives _) before after =
    Passes (validate c)
    × ((text : String) × (json.encode c ≡ done text) × (after ≡ some (text <> "\n")))
Holds json c (fails _) before after = after ≡ before

-- Another path, by the result.
abbrev pub Besides : Attempt (Unit {0}) → Option String → Option String → Type 0
Besides (gives _) before after = after ≡ before
Besides (fails _) before after = Spared before after

unfoldable pub IsSaved :
    (os : Os) → Json → String → Config → os.State → os.State × Attempt (Unit {0}) → Type 0
IsSaved os json path c s (t, r) =
    Holds json c r (os.content s path) (os.content t path)
    × ((q : String) → q ≢ path → Besides r (os.content s q) (os.content t q))

attempt-IsSaved :
    (os : Os) (json : Json) (path : String) (c : Config) (text : String) (s : os.State)
    (m : os.State × Outcome (Unit {0}))
    → Passes (validate c)
    → json.encode c ≡ done text
    → IsAtomic os path (text <> "\n") s m
    → IsSaved os json path c s (attempt os m)
unfolding IsSaved Holds attempt
attempt-IsSaved os json path c text s (t, done _) p e (h, others) = ((p, (text, e, h)), others)
attempt-IsSaved os json path c text s (t, failed _) p e (h, others) = (h, others)

encoded-IsSaved :
    (os : Os)
    → IsLawful os
    → (json : Json) (path : String) (c : Config) (s : os.State) (o : Outcome String)
    → Passes (validate c)
    → json.encode c ≡ o
    → IsSaved os json path c s (save_encoded os path o s)
unfolding IsSaved Holds save_encoded
encoded-IsSaved os law json path c s (failed e) p h = (refl, λ q _. inl refl)
encoded-IsSaved os law json path c s (done text) p h =
    attempt-IsSaved os json path c text s _ p h (replace-IsAtomic os law path (text <> "\n") s)

checked-IsSaved :
    (os : Os)
    → IsLawful os
    → (json : Json) (path : String) (c : Config) (s : os.State) (r : Check) → validate c ≡ r
    → IsSaved os json path c s (save_checked os json path c r s)
unfolding IsSaved Holds save_checked
checked-IsSaved os law json path c s (err e) h = (refl, λ q _. inl refl)
checked-IsSaved os law json path c s (ok _) h = encoded-IsSaved os law json path c s _ h refl

-- If the file calls behave as documented, `Save` with no error leaves the encoding of an accepted
-- configuration and every other path as it was; with an error it leaves the file and everything
-- else that was there as it was, and only a new file can be left behind.
pub save-IsSaved :
    (os : Os)
    → IsLawful os
    → (json : Json) (path : String) (c : Config) (s : os.State)
    → IsSaved os json path c s (save os json path c s)
unfolding save
save-IsSaved os law json path c s = checked-IsSaved os law json path c s _ refl
