-- ===== src/Os.antt =====
-- What the program asks of the operating system: running a command, and the file calls by which
-- internal/control/executor.go and internal/config/config.go replace a file.
pub mod Memory
use las.Prelude.{String, Option, none, some, List, ◌≡◌, ◌≢◌, refl, ◌⊎◌, inl, inr}

-- An outcome of a call: a value, or the text of an error.
pub data Outcome (A : Type 0) : Type 0 where
  done : A → Outcome A
  failed : String → Outcome A

-- `if err != nil { … }` behind a call: the first function goes on from an error, the second from a
-- value.
unfoldable pub after {ℓ} :
    {S : Type 0} {A : Type 0} {R : Type ℓ} → S × Outcome A → (String → S → R) → (A → S → R) → R
after (s, failed e) on_error go_on = on_error e s
after (s, done a) on_error go_on = go_on a s

-- What holds on both ways behind a call.
pub after_rule {ℓ κ} :
    {S : Type 0} {A : Type 0} {R : Type ℓ} (P : R → Type κ) (m : S × Outcome A)
    (on_error : String → S → R) (go_on : A → S → R)
    → ((e : String) → m.1 ≡ failed e → P (on_error e m.0))
    → ((a : A) → m.1 ≡ done a → P (go_on a m.0))
    → P (after m on_error go_on)
unfolding after
after_rule P (s, failed e) on_error go_on f g = f e refl
after_rule P (s, done a) on_error go_on f g = g a refl

done-injective : {A : Type 0} {a b : A} → done a ≡ done b → a ≡ b
done-injective h = cc

failed-clash : {A : Type 0} {a : A} {e : String} → failed e ≡ done a → ⊥
failed-clash h = cc

pub Outcome-cases :
    {A : Type 0} (o : Outcome A) → ((a : A) × (o ≡ done a)) ⊎ ((e : String) × (o ≡ failed e))
Outcome-cases (done a) = inl (a, refl)
Outcome-cases (failed e) = inr (e, refl)

-- Behind a call that succeeds, the second function goes on.
pub after-done {ℓ κ} :
    {S : Type 0} {A : Type 0} {R : Type ℓ} (P : R → Type κ) (m : S × Outcome A)
    (on_error : String → S → R) (go_on : A → S → R) (a : A)
    → m.1 ≡ done a
    → P (go_on a m.0)
    → P (after m on_error go_on)
unfolding after
after-done P (s, done b) on_error go_on a h p = rw (done-injective h) p
after-done P (s, failed e) on_error go_on a h p = absurd (failed-clash h)

-- How `cmd.CombinedOutput()` ends: with no error, with the context's error, or with another.
pub data Ending : Type 0 where
  finished : Ending
  cancelled : String → Ending
  exited : String → Ending

-- The state is the machine's. A temporary file is known by its name.
pub record Os : Type 1 where
  pub State : Type 0
  pub content : State → String → Option String
  pub run : String → List String → State → State × String × Ending
  pub mkdir_all : String → State → State × Outcome (Unit {0})
  pub create_temp : String → State → State × Outcome String
  pub write : String → String → State → State × Outcome (Unit {0})
  pub chmod : String → String → State → State × Outcome (Unit {0})
  pub close : String → State → State × Outcome (Unit {0})
  pub rename : String → String → State → State × Outcome (Unit {0})
  pub remove : String → State → State × Outcome (Unit {0})

-- The call leaves the content of every path alone.
abbrev pub Keeps : (os : Os) → Os.State os → Os.State os → Type 0
Keeps os s t = (path : String) → Os.content os t path ≡ Os.content os s path

-- A path behind an error: as it was, or new.
abbrev pub Spared : Option String → Option String → Type 0
Spared before after = (after ≡ before) ⊎ (before ≡ none)

-- Documented behaviour of the calls: `mkdir_all`, `chmod` and `close` change no content,
-- `create_temp` makes a file that was not there, `write` changes its file alone, `rename` moves a
-- file or does nothing, `remove` deletes one, or fails and does nothing.
pub record IsLawful (os : Os) : Type 0 where
  pub mkdir_all-Keeps : (path : String) (s : os.State) → Keeps os s (os.mkdir_all path s).0
  pub chmod-Keeps : (name mode : String) (s : os.State) → Keeps os s (os.chmod name mode s).0
  pub close-Keeps : (name : String) (s : os.State) → Keeps os s (os.close name s).0
  pub create_temp-failed :
      (path : String) (s : os.State) {e : String}
      → (os.create_temp path s).1 ≡ failed e
      → Keeps os s (os.create_temp path s).0
  pub create_temp-done :
      (path : String) (s : os.State) {name : String}
      → (os.create_temp path s).1 ≡ done name
      → (name ≢ path)
        × (os.content s name ≡ none)
        × ((q : String) → q ≢ name → os.content (os.create_temp path s).0 q ≡ os.content s q)
  pub write-done :
      (name text : String) (s : os.State)
      → (os.write name text s).1 ≡ done tt
      → os.content (os.write name text s).0 name ≡ some text
  pub write-other :
      (name text : String) (s : os.State) (q : String)
      → q ≢ name
      → os.content (os.write name text s).0 q ≡ os.content s q
  pub rename-failed :
      (from to : String) (s : os.State) {e : String}
      → (os.rename from to s).1 ≡ failed e
      → Keeps os s (os.rename from to s).0
  pub rename-done :
      (from to : String) (s : os.State)
      → from ≢ to
      → (os.rename from to s).1 ≡ done tt
      → (os.content (os.rename from to s).0 to ≡ os.content s from)
        × (os.content (os.rename from to s).0 from ≡ none)
        × ((q : String) → q ≢ from → q ≢ to → os.content (os.rename from to s).0 q ≡ os.content s q)
  pub remove-done :
      (name : String) (s : os.State)
      → (os.remove name s).1 ≡ done tt
      → os.content (os.remove name s).0 name ≡ none
  pub remove-failed :
      (name : String) (s : os.State) {e : String}
      → (os.remove name s).1 ≡ failed e
      → Keeps os s (os.remove name s).0
  pub remove-other :
      (name : String) (s : os.State) (q : String)
      → q ≢ name
      → os.content (os.remove name s).0 q ≡ os.content s q

-- Every call to the machine succeeds.
pub record NeverFails (os : Os) : Type 0 where
  pub run-finished :
      (program : String) (args : List String) (s : os.State) → (os.run program args s).2 ≡ finished
  pub mkdir_all-done : (path : String) (s : os.State) → (os.mkdir_all path s).1 ≡ done tt
  pub create_temp-done :
      (path : String) (s : os.State) → (name : String) × ((os.create_temp path s).1 ≡ done name)
  pub write-done : (name text : String) (s : os.State) → (os.write name text s).1 ≡ done tt
  pub chmod-done : (name mode : String) (s : os.State) → (os.chmod name mode s).1 ≡ done tt
  pub close-done : (name : String) (s : os.State) → (os.close name s).1 ≡ done tt
  pub rename-done : (from to : String) (s : os.State) → (os.rename from to s).1 ≡ done tt
