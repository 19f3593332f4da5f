-- ===== src/Os/Memory.antt =====
-- A machine in memory: the contents of the files by path. It meets the assumptions.
use Prim.Native.String
use text.Mathlib.TextLemmas.{length-append}
use las.Prelude.{
  String, Option, none, some, ◌<>◌, str_eq, eq_iff, if◌then◌else◌, ◌≡◌, ◌≢◌, refl, sym, ◌∙◌, ap,
  arith,
}
use las.Os.{Outcome, done, failed, finished, Os, IsLawful}

abbrev pub Files : Type 0
Files = String → Option String

abbrev pub update : Files → String → Option String → Files
update files path content q = if str_eq q path then content else files q

-- The temporary file stands beside the path; the call fails if there is one.
abbrev temp_name : String → String
temp_name path = path <> "~"

abbrev place : String → Files → Option String → Files × Outcome String
place path files none = (update files (temp_name path) (some ""), done (temp_name path))
place path files (some _) = (files, failed "file exists")

abbrev move : String → String → Files → Option String → Files × Outcome (Unit {0})
move from to files none = (files, failed "no such file")
move from to files (some text) = (update (update files to (some text)) from none, done tt)

abbrev pub memory : Os
memory = record {
  State = Files;
  content = λ files path. files path;
  run = λ program args files. (files, program, finished);
  mkdir_all = λ path files. (files, done tt);
  create_temp = λ path files. place path files (files (temp_name path));
  write = λ name text files. (update files name (some text), done tt);
  chmod = λ name mode files. (files, done tt);
  close = λ name files. (files, done tt);
  rename = λ from to files. move from to files (files from);
  remove = λ name files. (update files name none, done tt);
}

temp_name-ne : (path : String) → temp_name path ≢ path
temp_name-ne path e = absurd (omega (arith, length-append path "~", ap String.count e))

done-injective : {A : Type 0} (a b : A) → done a ≡ done b → a ≡ b
done-injective a b e = cc

update_same :
    (files : Files) (path : String) (content : Option String)
    → update files path content path ≡ content
update_same files path content = ground (arith, eq_iff path path)

update_other :
    (files : Files) (path : String) (content : Option String) (q : String)
    → q ≢ path
    → update files path content q ≡ files q
update_other files path content q h = ground (arith, eq_iff q path)

place_done :
    (path : String) (files : Files) (o : Option String) {name : String}
    → files (temp_name path) ≡ o
    → (place path files o).1 ≡ done name
    → (name ≢ path)
      × (files name ≡ none)
      × ((q : String) → q ≢ name → (place path files o).0 q ≡ files q)
place_done path files none {name} e h =
    let same = done-injective (temp_name path) name h in
    (
      λ k. temp_name-ne path (same ∙ k),
      ap files (sym same) ∙ e,
      λ q ne. update_other files (temp_name path) (some "") q (λ k. ne (k ∙ same)),
    )
place_done path files (some text) e h = cc

place_failed :
    (path : String) (files : Files) (o : Option String) {e : String}
    → (place path files o).1 ≡ failed e
    → (q : String) → (place path files o).0 q ≡ files q
place_failed path files none h q = cc
place_failed path files (some text) h q = refl

move_failed :
    (from to : String) (files : Files) (o : Option String) {e : String}
    → (move from to files o).1 ≡ failed e
    → (q : String) → (move from to files o).0 q ≡ files q
move_failed from to files none h q = refl
move_failed from to files (some text) h q = cc

move_done :
    (from to : String) (files : Files) (o : Option String)
    → files from ≡ o
    → from ≢ to
    → (move from to files o).1 ≡ done tt
    → ((move from to files o).0 to ≡ files from)
      × ((move from to files o).0 from ≡ none)
      × ((q : String) → q ≢ from → q ≢ to → (move from to files o).0 q ≡ files q)
move_done from to files none e ne h = cc
move_done from to files (some text) e ne h =
    let moved = update files to (some text) in
    (
      update_other moved from none to (λ k. ne (sym k)) ∙ update_same files to (some text) ∙ sym e,
      update_same moved from none,
      λ q p r. update_other moved from none q p ∙ update_other files to (some text) q r,
    )

clash : {e : String} → done tt ≡ failed e → ⊥
clash h = cc

pub memory-IsLawful : IsLawful memory
memory-IsLawful = record {
  mkdir_all-Keeps = λ path s q. refl;
  chmod-Keeps = λ name mode s q. refl;
  close-Keeps = λ name s q. refl;
  create_temp-failed = λ path s h. place_failed path s (s (temp_name path)) h;
  create_temp-done = λ path s h. place_done path s (s (temp_name path)) refl h;
  write-done = λ name text s h. update_same s name (some text);
  write-other = λ name text s q h. update_other s name (some text) q h;
  rename-failed = λ from to s h. move_failed from to s (s from) h;
  rename-done = λ from to s ne h. move_done from to s (s from) refl ne h;
  remove-done = λ name s h. update_same s name none;
  remove-failed = λ name s h. absurd (clash h);
  remove-other = λ name s q h. update_other s name none q h;
}
