-- ===== src/Store/Sample.antt =====
-- The machine in memory as a disk, and a reader of configurations that knows one text, for tests.
use las.Prelude.{Bool, true, false, String, Option, none, some, str_eq, ◌≡◌, refl, if◌then◌else◌}
use las.Os.{Outcome, done, failed}
use las.Os.Memory.{memory}
use las.Config.{Config}
use las.Store.{Look, found, absent, Disk, IsFaithful, Json, RoundTrips}
use las.Validate.Sample.{sample_config}

abbrev look : Option String → Look String
look none = absent "no such file"
look (some text) = found text

abbrev stat_of : Option String → Look (Unit {0})
stat_of none = absent "no such file"
stat_of (some text) = found tt

abbrev pub memory_disk : Disk memory
memory_disk = record {
  read = λ path files. look (files path);
  stat = λ path files. stat_of (files path);
}

absent-clash : {A : Type 0} {e : String} {a : A} → absent e ≡ found a → ⊥
absent-clash h = cc

found-clash : {A : Type 0} {e : String} {a : A} → found a ≡ absent e → ⊥
found-clash h = cc

look-found : (o : Option String) {text : String} → look o ≡ found text → o ≡ some text
look-found none h = absurd (absent-clash h)
look-found (some text) h = cc

look-absent : (o : Option String) {e : String} → look o ≡ absent e → o ≡ none
look-absent none h = refl
look-absent (some text) h = absurd (found-clash h)

stat_of-absent : (o : Option String) {e : String} → stat_of o ≡ absent e → o ≡ none
stat_of-absent none h = refl
stat_of-absent (some text) h = absurd (found-clash h)

pub memory_disk-IsFaithful : IsFaithful memory memory_disk
memory_disk-IsFaithful = record {
  read-found = λ path files h. look-found (files path) h;
  read-absent = λ path files h. look-absent (files path) h;
  stat-absent = λ path files h. stat_of-absent (files path) h;
}

abbrev read_sample : String → Outcome Config
read_sample text = if str_eq text "sample" then done sample_config else failed "unexpected text"

abbrev pub sample_json : Json
sample_json = record {
  encode = λ c. done "sample";
  decode = λ text. done sample_config;
  decode_first = λ text. read_sample text;
}

failed-clash : {A : Type 0} {e : String} {a : A} → failed e ≡ done a → ⊥
failed-clash h = cc

if-done :
    (b : Bool) (e : String) {x c : Config}
    → (if b then done x else failed e) ≡ done c
    → done x ≡ done c
if-done true e h = h
if-done false e h = absurd (failed-clash h)

pub sample_json-RoundTrips : RoundTrips sample_json
sample_json-RoundTrips body c h text _ = if-done (str_eq body "sample") _ h
