-- ===== src/Store/Loads.antt =====
-- What `Load` gives, also behind `Save`, and when `Init` writes.
use las.Store.Laws.{Besides, Holds, IsSaved, save-IsSaved}
use las.Store.{
  init, init_at, Attempt, ReadsBack, absent, unreadable, IsFaithful, save, fails, Failure, Look,
  found, absent, unreadable, Disk, Json, gives, checked, checked_by, decoded, loaded, load,
}
use las.Os.{IsLawful, Os, Outcome, done, failed}
use mathlib.Core.Path.{subst}
use las.Prelude.{
  ◌<>◌, ◌≢◌, ◌∙◌, Option, none, some, ◌⊎◌, inl, inr, sym, refl, String, ◌≡◌, refl, ap, ◌↔◌,
}
use las.Errors.{Check, ok, err, Passes}
use las.Config.{default_config, Config}
use las.Validate.{validate}

fails-clash : {A : Type 0} {f : Failure} {a : A} → fails f ≡ gives a → ⊥
fails-clash h = cc

checked_by-gives :
    (c : Config) (r : Check) {d : Config} → checked_by c r ≡ gives d → (c ≡ d) × (r ≡ ok tt)
unfolding checked_by
checked_by-gives c (ok tt) h = (cc, refl)
checked_by-gives c (err e) h = absurd (fails-clash h)

pub checked-gives : {c d : Config} → checked c ≡ gives d → (c ≡ d) × Passes (validate d)
unfolding checked
checked-gives {c} h =
    let (same, passes) = checked_by-gives c (validate c) h in
    (same, subst (λ x. Passes (validate x)) same passes)

pub checked-Passes : {c : Config} → Passes (validate c) → checked c ≡ gives c
unfolding checked checked_by
checked-Passes h = rw h

IsSaved-Holds :
    (os : Os) (json : Json) (path : String) (c : Config) (s : os.State)
    (m : os.State × Attempt (Unit {0}))
    → IsSaved os json path c s m
    → Holds json c m.1 (os.content s path) (os.content m.0 path)
unfolding IsSaved
IsSaved-Holds os json path c s m h = h.0

-- What a file must hold for `Load` to give a configuration.
abbrev pub IsLoadable : (os : Os) → Json → Disk os → String → Config → os.State → Type 0
IsLoadable os json disk path c s =
    (text : String) × (disk.read path s ≡ found text)
    × (json.decode text ≡ done c)
    × Passes (validate c)

decoded-gives :
    (o : Outcome Config) {c : Config} → decoded o ≡ gives c → (o ≡ done c) × Passes (validate c)
unfolding decoded
decoded-gives (done d) h = let (same, passes) = checked-gives h in (ap done same, passes)
decoded-gives (failed e) h = absurd (fails-clash h)

loaded-gives :
    (json : Json) (l : Look String) {c : Config}
    → loaded json l ≡ gives c
    → (text : String) × (l ≡ found text) × (json.decode text ≡ done c) × Passes (validate c)
unfolding loaded
loaded-gives json (found text) h =
    let (e, passes) = decoded-gives (json.decode text) h in (text, refl, e, passes)
loaded-gives json (absent e) h = absurd (fails-clash h)
loaded-gives json (unreadable e) h = absurd (fails-clash h)

module _ (os : Os) (json : Json) (disk : Disk os) (path : String) where
  IsLoadable-load :
      (c : Config) (s : os.State)
      → IsLoadable os json disk path c s
      → load os json disk path s ≡ gives c
  unfolding load loaded decoded
  IsLoadable-load c s (text, r, d, passes) = rw (r, d, checked-Passes passes)

  -- `Load` gives a configuration exactly if the file can be read, what it holds is decoded as that
  -- configuration, and the checks accept it.
  pub load_iff :
      (c : Config) (s : os.State)
      → (load os json disk path s ≡ gives c) ↔ IsLoadable os json disk path c s
  unfolding load
  load_iff c s = (loaded-gives json (disk.read path s), IsLoadable-load c s)

Look-cases :
    {A : Type 0} (l : Look A)
    → ((a : A) × (l ≡ found a))
      ⊎ ((e : String) × (l ≡ absent e))
      ⊎ ((e : String) × (l ≡ unreadable e))
Look-cases (found a) = inl (a, refl)
Look-cases (absent e) = inr (inl (e, refl))
Look-cases (unreadable e) = inr (inr (e, refl))

some-injective : {A : Type 0} {a b : A} → some a ≡ some b → a ≡ b
some-injective h = cc

none-clash : {A : Type 0} {a : A} → none ≡ some a → ⊥
none-clash h = cc

module _ (os : Os) (disk : Disk os) (faithful : IsFaithful os disk) (json : Json)
    (path : String) where
  pub read-some :
      (t : os.State) {text : String}
      → os.content t path ≡ some text
      → (disk.read path t ≡ found text) ⊎ ((e : String) × (disk.read path t ≡ unreadable e))
  read-some t h = elim (Look-cases (disk.read path t)) [
    | inl (text', r) ↦ inl (r ∙ ap found (some-injective (sym (faithful.read-found path t r) ∙ h)))
    | inr (inl (e, r)) ↦ absurd (none-clash (sym (faithful.read-absent path t r) ∙ h))
    | inr (inr r) ↦ inr r
  ]

  -- What is loaded from a path that holds the encoding of an accepted configuration.
  pub Holds-load :
      (c : Config)
      → ReadsBack json c
      → (t : os.State) (before : Option String) → Holds json c (gives tt) before (os.content t path)
      → (load os json disk path t ≡ gives c) ⊎ ((e : String) × (disk.read path t ≡ unreadable e))
  unfolding Holds
  Holds-load c back t _ (passes, (text, e, h)) = elim (read-some t h) [
    | inl r ↦ inl ((load_iff os json disk path c t).1 (_, r, back text e, passes))
    | inr r ↦ inr r
  ]

  -- If the file calls behave as documented and the encoding of the configuration can be decoded
  -- again, then behind `Save` with no error `Load` gives the configuration that was saved, unless
  -- the file cannot be read.
  pub load-save :
      IsLawful os
      → (c : Config) → ReadsBack json c
      → (s : os.State) → (save os json path c s).1 ≡ gives tt
      → let t = (save os json path c s).0 in
        (load os json disk path t ≡ gives c) ⊎ ((e : String) × (disk.read path t ≡ unreadable e))
  load-save law c back s h = Holds-load c back _ _ (
      subst (λ r. Holds json c r (os.content s path) (os.content (save os json path c s).0 path)) h
        (IsSaved-Holds os json path c s _ (save-IsSaved os law json path c s)))

  -- What `Init` does where there is no file: it makes one that holds the default configuration, or it
  -- fails and there is still none.
  abbrev pub IsInitialised : os.State → os.State × Attempt (Unit {0}) → Type 0
  IsInitialised s (t, r) =
      (os.content s path ≡ none)
      × (((r ≡ gives tt)
            × Passes (validate default_config)
            × ((text : String) × (json.encode default_config ≡ done text)
                × (os.content t path ≡ some (text <> "\n"))))
          ⊎ ((f : Failure) × (r ≡ fails f) × (os.content t path ≡ none)))
      × ((other : String) → other ≢ path → Besides r (os.content s other) (os.content t other))

  Holds-default :
      (r : Attempt (Unit {0})) (before after : Option String)
      → before ≡ none
      → Holds json default_config r before after
      → ((r ≡ gives tt)
          × Passes (validate default_config)
          × ((text : String) × (json.encode default_config ≡ done text)
              × (after ≡ some (text <> "\n"))))
        ⊎ ((f : Failure) × (r ≡ fails f) × (after ≡ none))
  unfolding Holds
  Holds-default (gives _) before after none_there h = inl (refl, h.0, h.1)
  Holds-default (fails f) before after none_there h = inr (f, refl, h ∙ none_there)

  IsSaved-IsInitialised :
      (s : os.State) (m : os.State × Attempt (Unit {0}))
      → os.content s path ≡ none
      → IsSaved os json path default_config s m
      → IsInitialised s m
  unfolding IsSaved
  IsSaved-IsInitialised s (t, r) none_there (h, others) =
      (none_there, Holds-default r _ _ none_there h, others)

  init_at_lem :
      IsLawful os
      → (s : os.State) (l : Look (Unit {0})) → disk.stat path s ≡ l
      → ((f : Failure) × (init_at os json disk path l s ≡ (s, fails f)))
        ⊎ IsInitialised s (init_at os json disk path l s)
  unfolding init_at
  init_at_lem law s (found _) h = inl (_, refl)
  init_at_lem law s (unreadable e) h = inl (_, refl)
  init_at_lem law s (absent e) h = inr (
      IsSaved-IsInitialised s _ (faithful.stat-absent path s h)
        (save-IsSaved os law json path default_config s))

  -- If the file calls and the looks at files behave as documented, `Init` leaves the machine as it
  -- is and reports an error, or there was no file and `Init` succeeds, the file holds the encoding
  -- of the default configuration, which is an accepted one, and every other path is as it was, or
  -- there was no file and `Init` fails, there is still none, and every other path that held a file
  -- is as it was.
  pub init_lem :
      IsLawful os
      → (s : os.State)
      → ((f : Failure) × (init os json disk path s ≡ (s, fails f)))
        ⊎ IsInitialised s (init os json disk path s)
  unfolding init
  init_lem law s = init_at_lem law s (disk.stat path s) refl
