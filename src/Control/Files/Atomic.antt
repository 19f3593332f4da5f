-- ===== src/Control/Files/Atomic.antt =====
-- Replacing a file: all of it or nothing.
use las.Prelude.{
  String, false, Option, none, some, ◌≡◌, ◌≢◌, inl, inr, refl, sym, ◌∙◌, arith, str_eq, eq_iff,
  Bool-cases,
}
use mathlib.Core.Path.{subst}
use las.Os.{Spared, Outcome-cases, Os, IsLawful, Keeps, Outcome, done, failed, after, after_rule}
use las.Control.Files.{describe, fill_and_rename, write_file}

-- The content of the path afterwards, by the outcome.
abbrev pub Settled : Outcome (Unit {0}) → Option String → Option String → String → Type 0
Settled (done _) before after text = after ≡ some text
Settled (failed _) before after text = after ≡ before

-- The temporary file behind a success is no more.
abbrev Gone : Outcome (Unit {0}) → Option String → Type 0
Gone (done _) after = after ≡ none
Gone (failed _) after = Unit

remove-none :
    (os : Os) (law : IsLawful os) (name : String) (s : os.State)
    → os.content s name ≡ none
    → os.content (os.remove name s).0 name ≡ none
remove-none os law name s h = elim (Outcome-cases (os.remove name s).1) [
  | inl (tt, e) ↦ law.remove-done name s e
  | inr (_, e) ↦ law.remove-failed name s e name ∙ h
]

module _ (os : Os) (law : IsLawful os) (path name text : String) (ne : name ≢ path) where
  -- What the calls on the temporary file leave.
  abbrev Replaced : os.State → os.State × Outcome (Unit {0}) → Type 0
  Replaced s (t, r) =
      Settled r (os.content s path) (os.content t path) text
      × Gone r (os.content t name)
      × ((q : String) → q ≢ path → q ≢ name → os.content t q ≡ os.content s q)

  -- A state in which only the temporary file may differ.
  abbrev Touched : os.State → os.State → Type 0
  Touched s t = (q : String) → q ≢ name → os.content t q ≡ os.content s q

  give_up :
      (s t : os.State) (e : String) → Touched s t → Replaced s ((os.remove name t).0, failed e)
  give_up s t e h = (
    law.remove-other name t path (λ k. ne (sym k)) ∙ h path (λ k. ne (sym k)),
    tt,
    λ q _ k. law.remove-other name t q k ∙ h q k,
  )

  fill_and_rename-Replaced :
      (mode : String) (s : os.State) → Replaced s (fill_and_rename os name path mode text s)
  unfolding fill_and_rename
  fill_and_rename-Replaced mode s =
      let s1 = (os.write name text s).0 in
      let t1 : Touched s s1 = law.write-other name text s in
      let s2 = (os.chmod name mode s1).0 in
      let t2 : Touched s s2 = λ q k. law.chmod-Keeps name mode s1 q ∙ t1 q k in
      let s3 = (os.close name s2).0 in
      let t3 : Touched s s3 = λ q k. law.close-Keeps name s2 q ∙ t2 q k in
      let s4 = (os.rename name path s3).0 in
      after_rule (Replaced s) _ _ _
        (λ e w.
          give_up s _ (describe "write temp file for %s: %w" path e)
            (λ q k. law.close-Keeps name s1 q ∙ t1 q k))
        λ _ w.
          after_rule (Replaced s) _ _ _
            (λ e c.
              give_up s _ (describe "chmod temp file for %s: %w" path e)
                (λ q k. law.close-Keeps name s2 q ∙ t2 q k))
            λ _ c.
              after_rule (Replaced s) _ _ _
                (λ e d. give_up s s3 (describe "close temp file for %s: %w" path e) t3)
                λ _ d.
                  after_rule (Replaced s) _ _ _
                    (λ e r.
                      give_up s s4 (describe "replace %s: %w" path e)
                        (λ q k. law.rename-failed name path s3 r q ∙ t3 q k))
                    λ _ r.
                      let (moved, gone, others) = law.rename-done name path s3 ne r in
                      (
                        law.remove-other name s4 path (λ k. ne (sym k))
                            ∙ moved
                            ∙ law.close-Keeps name s2 name
                            ∙ law.chmod-Keeps name mode s1 name
                            ∙ law.write-done name text s w,
                        remove-none os law name s4 gone,
                        λ q p k. law.remove-other name s4 q k ∙ others q k p ∙ t3 q k,
                      )

-- Another path, by the outcome.
abbrev pub Apart : Outcome (Unit {0}) → Option String → Option String → Type 0
Apart (done _) before after = after ≡ before
Apart (failed _) before after = Spared before after

-- The outcome of replacing a file, from the state before.
abbrev pub IsAtomic :
    (os : Os) → String → String → os.State → os.State × Outcome (Unit {0}) → Type 0
IsAtomic os path text s (t, r) =
    Settled r (os.content s path) (os.content t path) text
    × ((q : String) → q ≢ path → Apart r (os.content s q) (os.content t q))

Spared-ap : {a b c : Option String} → b ≡ a → Spared b c → Spared a c
Spared-ap e (inl h) = inl (h ∙ e)
Spared-ap e (inr h) = inr (sym e ∙ h)

Apart-same : (r : Outcome (Unit {0})) {a b : Option String} → b ≡ a → Apart r a b
Apart-same (done _) h = h
Apart-same (failed _) h = inl h

-- The temporary file, which was not there before.
Gone-Apart : (r : Outcome (Unit {0})) (a b : Option String) → a ≡ none → Gone r b → Apart r a b
Gone-Apart (done _) a b e h = h ∙ sym e
Gone-Apart (failed _) a b e h = inr e

IsAtomic-trans :
    (os : Os) (path text : String) (s s' : os.State) (r : os.State × Outcome (Unit {0}))
    → Keeps os s s'
    → IsAtomic os path text s' r
    → IsAtomic os path text s r
IsAtomic-trans os path text s s' (t, done _) k h = (h.0, λ q ne. h.1 q ne ∙ k q)
IsAtomic-trans os path text s s' (t, failed e) k h =
    (h.0 ∙ k path, λ q ne. Spared-ap (k q) (h.1 q ne))

Settled-ap :
    (r : Outcome (Unit {0})) (b b' after : Option String) (text : String)
    → b' ≡ b
    → Settled r b' after text
    → Settled r b after text
Settled-ap (done _) b b' after text e h = h
Settled-ap (failed _) b b' after text e h = h ∙ e

differs : (q name : String) → str_eq q name ≡ false → q ≢ name
differs q name e k = ground (arith, eq_iff q name)

-- A replaced file is an atomic change if its temporary file was not there before.
Replaced-IsAtomic :
    (os : Os) (path name text : String) (s s' t : os.State) (r : Outcome (Unit {0}))
    → name ≢ path
    → os.content s name ≡ none
    → ((q : String) → q ≢ name → os.content s' q ≡ os.content s q)
    → Settled r (os.content s' path) (os.content t path) text
    → Gone r (os.content t name)
    → ((q : String) → q ≢ path → q ≢ name → os.content t q ≡ os.content s' q)
    → IsAtomic os path text s (t, r)
Replaced-IsAtomic os path name text s s' t r ne fresh same settled gone others = (
  Settled-ap r (os.content s path) (os.content s' path) (os.content t path) text
      (same path (λ k. ne (sym k))) settled,
  λ q p. elim (Bool-cases (str_eq q name)) [
    | inl e ↦
        let h = (eq_iff q name).0 e in
        subst (λ p. Apart r (os.content s p) (os.content t p)) (sym h) (Gone-Apart r _ _ fresh gone)
    | inr e ↦ let h : q ≢ name = λ k. differs q name e k in Apart-same r (others q p h ∙ same q h)
  ],
)

fill_and_rename-IsAtomic :
    (os : Os) (law : IsLawful os) (path name mode text : String) (s s' : os.State)
    → name ≢ path
    → os.content s name ≡ none
    → ((q : String) → q ≢ name → os.content s' q ≡ os.content s q)
    → IsAtomic os path text s (fill_and_rename os name path mode text s')
fill_and_rename-IsAtomic os law path name mode text s s' ne fresh same =
    let h = fill_and_rename-Replaced os law path name text ne mode s' in
    Replaced-IsAtomic os path name text s s' _ _ ne fresh same h.0 h.1 h.2

-- On a machine whose file calls behave as documented, `writeFile` replaces the file by the new
-- content and leaves every other path as it was when it reports no error; when it reports one, it
-- leaves the file and everything else that was there as it was, and only a new file can be left
-- behind.
pub write_file-IsAtomic :
    (os : Os)
    → IsLawful os
    → (path mode text : String) (s : os.State)
    → IsAtomic os path text s (write_file os path mode text s)
unfolding write_file
write_file-IsAtomic os law path mode text s =
    after_rule (IsAtomic os path text s) _ _ _ (λ e _. (refl, λ q _. inl refl))
      λ bits _.
        after_rule (IsAtomic os path text s) _ _ _
          (λ e _. (law.mkdir_all-Keeps path s path, λ q _. inl (law.mkdir_all-Keeps path s q)))
          λ _ _.
            let s1 = (os.mkdir_all path s).0 in
            IsAtomic-trans os path text s s1 _ (law.mkdir_all-Keeps path s) (
              after_rule (IsAtomic os path text s1) _ _ _
                (λ e c. (
                  law.create_temp-failed path s1 c path,
                  λ q _. inl (law.create_temp-failed path s1 c q),
                ))
                λ name c.
                  let (ne, fresh, same) = law.create_temp-done path s1 c in
                  fill_and_rename-IsAtomic os law path name bits text s1 _ ne fresh same)
